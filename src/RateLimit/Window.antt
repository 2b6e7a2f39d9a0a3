-- ===== src/RateLimit/Window.antt =====
-- The hits of one window.
use Prim.Native.Nat.{min}
use sobkichu.Prelude.{
  ℕ, zero, suc, ◌+◌, ◌-◌, ◌≡◌, ap, ◌∙◌, sym, true, false, some, ℤ, leb, Text, text_eq, lit, arith,
  leb→le, leb→gt,
}
use sobkichu.RateLimit.{Redis, RateLimitPolicy, namespaced, decide, hit}

-- What Redis documents of a counter: INCR replies one more than the counter that is live, which
-- becomes that number, and the counters of other keys stay.
pub record IsCounter {State : Type 0} (redis : Redis State) (count : Text → State → ℕ)
    : Type 0 where
  pub replies :
      (key : Text) (window : ℕ) (s : State)
      → (ttl : ℤ) × ((redis.exec key window s).0 ≡ some (count key s + 1, ttl))
  pub counts :
      (key : Text) (window : ℕ) (s : State)
      → count key (redis.exec key window s).1 ≡ count key s + 1
  pub others :
      (key other : Text) (window : ℕ) (s : State)
      → text_eq other key ≡ false
      → count other (redis.exec key window s).1 ≡ count other s

-- A run within a window of a key: its hits, the hits on other keys and other changes of the store,
-- none of which ends the window. The indices are the number of hits and of those allowed.
pub data Run {State : Type 0} (redis : Redis State) (count : Text → State → ℕ) (key : Text)
    (policy : RateLimitPolicy) : ℕ → ℕ → State → State → Type 0 where
  stop : {s : State} → Run redis count key policy zero zero s s
  granted :
      {m n : ℕ} {s s' : State}
      → (hit redis key policy s).0.allowed ≡ true
      → Run redis count key policy m n (hit redis key policy s).1 s'
      → Run redis count key policy (suc m) (suc n) s s'
  denied :
      {m n : ℕ} {s s' : State}
      → (hit redis key policy s).0.allowed ≡ false
      → Run redis count key policy m n (hit redis key policy s).1 s'
      → Run redis count key policy (suc m) n s s'
  elsewhere :
      {m n : ℕ} {s s' : State} (other : Text) (its : RateLimitPolicy)
      → text_eq key other ≡ false
      → Run redis count key policy m n (hit redis other its s).1 s'
      → Run redis count key policy m n s s'
  passes :
      {m n : ℕ} {s mid s' : State}
      → count (namespaced key) mid ≡ count (namespaced key) s
      → Run redis count key policy m n mid s'
      → Run redis count key policy m n s s'

namespaced_apart :
    (key other : Text)
    → text_eq key other ≡ false
    → text_eq (namespaced key) (namespaced other) ≡ false
unfolding namespaced text_eq lit
namespaced_apart key other h = h

module _ {State : Type 0} (redis : Redis State) (count : Text → State → ℕ)
    (counter : IsCounter redis count) (key : Text) (policy : RateLimitPolicy) where
  hit_allowed :
      (s : State)
      → (hit redis key policy s).0.allowed ≡ leb (count (namespaced key) s + 1) policy.limit
  unfolding hit decide
  hit_allowed s =
      let (ttl, replied) = counter.replies (namespaced key) policy.window_seconds s in
      ap (λ r. (decide policy r).allowed) replied

  hit_counts :
      (s : State) → count (namespaced key) (hit redis key policy s).1 ≡ count (namespaced key) s + 1
  unfolding hit
  hit_counts s = counter.counts (namespaced key) policy.window_seconds s

  hit_elsewhere :
      (other : Text) (its : RateLimitPolicy) (s : State)
      → text_eq key other ≡ false
      → count (namespaced key) (hit redis other its s).1 ≡ count (namespaced key) s
  unfolding hit
  hit_elsewhere other its s h =
      counter.others (namespaced other) (namespaced key) its.window_seconds s
        (namespaced_apart key other h)

  -- Within one window, of the hits on a key exactly as many are allowed as the limit has left,
  -- whatever hits on other keys come between them, while Redis answers.
  pub hits_allowed :
      {m n : ℕ} {s s' : State}
      → Run redis count key policy m n s s'
      → n ≡ min m (policy.limit - count (namespaced key) s)
  hits_allowed stop = omega arith
  hits_allowed {s = s} (granted yes_allowed rest) =
      let later = hits_allowed rest in
      let counted = hit_counts s in
      let within = leb→le _ _ (sym (hit_allowed s) ∙ yes_allowed) in omega arith
  hits_allowed {s = s} (denied not_allowed rest) =
      let later = hits_allowed rest in
      let counted = hit_counts s in
      let beyond = leb→gt _ _ (sym (hit_allowed s) ∙ not_allowed) in omega arith
  hits_allowed {s = s} (elsewhere other its apart rest) =
      let later = hits_allowed rest in let same = hit_elsewhere other its s apart in omega arith
  hits_allowed (passes same rest) = let later = hits_allowed rest in omega arith
