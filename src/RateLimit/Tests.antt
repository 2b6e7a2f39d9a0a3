-- ===== src/RateLimit/Tests.antt =====
-- Counters without expiry, and a burst of requests for a code.
use Prim.Native.Nat.{min}
use sobkichu.Prelude.{
  ℕ, ◌+◌, ◌-◌, ◌≡◌, refl, ap, true, none, some, pos, if◌then◌else◌, Text, text_eq, text_eq_refl,
  lit,
}
use sobkichu.RateLimit.{Redis, otp_request, namespaced, hit}
use sobkichu.RateLimit.Window.{IsCounter, Run, stop, granted, denied, hits_allowed}

abbrev Counters : Type 0
Counters = Text → ℕ

abbrev counted : Text → Counters → Counters
counted key s k = if text_eq k key then s k + 1 else s k

abbrev memory : Redis Counters
memory = record { exec = λ key window s. (some (s key + 1, pos window), counted key s) }

abbrev live : Text → Counters → ℕ
live key s = s key

memory-IsCounter : IsCounter memory live
memory-IsCounter = record {
  replies = λ key window s. (pos window, refl);
  counts = λ key window s. ap (λ b. if b then s key + 1 else s key) (text_eq_refl key);
  others = λ key other window s h. ap (λ b. if b then s other + 1 else s other) h;
}

abbrev unused : Counters
unused key = 0

abbrev after_hit : Counters → Counters
after_hit s = (hit memory (lit "u1") otp_request s).1

abbrev after_all : Counters
after_all = after_hit (after_hit (after_hit (after_hit unused)))

burst : Run memory live (lit "u1") otp_request 4 3 unused after_all
unfolding hit lit namespaced text_eq
burst = granted refl (granted refl (granted refl (denied refl stop)))

-- Redis is down.
broken : Redis Counters
broken = record { exec = λ key window s. (none, s) }

fails_open :
    (hit broken (lit "u1") otp_request unused).0
    ≡ record { allowed = true; remaining = 3; reset_seconds = pos 900 }
unfolding hit broken
fails_open = refl

hits_allowed_example : 3 ≡ min 4 (otp_request.limit - live (namespaced (lit "u1")) unused)
hits_allowed_example = hits_allowed memory live memory-IsCounter (lit "u1") otp_request burst
