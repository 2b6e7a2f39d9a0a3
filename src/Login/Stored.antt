-- ===== src/Login/Stored.antt =====
-- The challenge of a number in the store.
use sobkichu.Prelude.{
  ℕ, ◌≡◌, refl, ap, ◌∙◌, sym, true, Option, none, some, ℤ, pos, ltb_ℤ, ok, Text, truthy,
}
use sobkichu.RateLimit.{Redis, RateLimitPolicy, hit, namespaced}
use sobkichu.Identity.Otp.{OtpChallenge, otp_ttl_seconds}
use sobkichu.Login.World.{World, continue, lift, bind-eq-ok}
use sobkichu.Login.Store.{
  Cache, StoredChallenge, ChallengeJson, otp_key, write_challenge, save, challenge_of, read_raw,
  load, consume,
}
use sobkichu.Login.Laws.{IsCache, IsChallengeJson, otp_key_apart}
use sobkichu.Login.Sent.{lifted}

module _ {State : Type 0} (limiter : Redis State) (cache : Cache State) (json : ChallengeJson)
    (value : Text → State → Option Text) (is_cache : IsCache limiter cache value)
    (is_json : IsChallengeJson json) where
  -- The text under the key of the number is that of the challenge.
  pub record Holds (phone : Text) (challenge : OtpChallenge) (s : State) : Type 0 where
    pub stored : StoredChallenge
    pub same_hash : stored.code_hash ≡ challenge.code_hash
    pub same_expiry : json.of_iso stored.expires_at ≡ challenge.expires_at
    pub same_attempts : stored.attempts ≡ challenge.attempts
    pub is_value : value (otp_key phone) s ≡ some (json.stringify stored)

  -- Another state with the same text.
  pub Holds-value :
      (phone : Text) (challenge : OtpChallenge) (s s' : State)
      → value (otp_key phone) s' ≡ value (otp_key phone) s
      → Holds phone challenge s
      → Holds phone challenge s'
  Holds-value phone challenge s s' same held = record {
    stored = held.stored;
    same_hash = held.same_hash;
    same_expiry = held.same_expiry;
    same_attempts = held.same_attempts;
    is_value = same ∙ held.is_value;
  }

  truthy_stored :
      (stored : StoredChallenge)
      → truthy (some (json.stringify stored)) ≡ some (json.stringify stored)
  unfolding truthy
  truthy_stored stored = rw (is_json.text_given stored) refl

  read_stored :
      (stored : StoredChallenge)
      → read_raw cache json (truthy (some (json.stringify stored)))
        ≡ ok (some (challenge_of cache json stored))
  read_stored stored = rw (truthy_stored stored, is_json.parse_back stored) refl

  same_challenge :
      {phone : Text} {challenge : OtpChallenge} {s : State} (held : Holds phone challenge s)
      → challenge_of cache json held.stored ≡ challenge
  same_challenge held = rw (held.same_hash, held.same_expiry, held.same_attempts) refl

  pub load_held :
      (phone : Text) (challenge : OtpChallenge) (w : World State)
      → Holds phone challenge w.cache
      → load cache json phone w ≡ (ok (some challenge), w)
  unfolding load
  load_held phone challenge w held =
      ap (λ r. continue (λ raw. lift (read_raw cache json (truthy raw))) (r, w))
        (is_cache.gets (otp_key phone) w.cache ∙ ap ok held.is_value)
      ∙ ap (λ r. (r, w)) (read_stored held.stored ∙ ap (λ x. ok (some x)) (same_challenge held))

  pub load_absent :
      (phone : Text) (w : World State)
      → value (otp_key phone) w.cache ≡ none
      → load cache json phone w ≡ (ok none, w)
  unfolding load truthy
  load_absent phone w h =
      ap (λ r. continue (λ raw. lift (read_raw cache json (truthy raw))) (r, w))
        (is_cache.gets (otp_key phone) w.cache ∙ ap ok h)

  pub hit_keeps :
      (phone key : Text) (policy : RateLimitPolicy) (s : State)
      → value (otp_key phone) (hit limiter key policy s).1 ≡ value (otp_key phone) s
  unfolding hit
  hit_keeps phone key policy s =
      is_cache.counts_apart (otp_key phone) (namespaced key) policy.window_seconds s
        (otp_key_apart phone key)

  pub write_challenge-Holds :
      (phone : Text) (challenge : OtpChallenge) (attempts : ℕ) (seconds : ℤ) (w out : World State)
      → ltb_ℤ (pos 0) seconds ≡ true
      → write_challenge cache json challenge attempts seconds (otp_key phone) w ≡ (ok tt, out)
      → Holds phone (record challenge { attempts = attempts }) out.cache × (out.db ≡ w.db)
  unfolding write_challenge
  write_challenge-Holds phone challenge attempts seconds w out positive h =
      let (iso, w1, first, h1) = bind-eq-ok (lift (json.to_iso challenge.expires_at)) _ w h in
      let (dated, same) = lifted _ w w1 first in
      let stored : StoredChallenge = record {
        code_hash = challenge.code_hash;
        expires_at = iso;
        attempts = attempts;
      } in
      let left = ap (λ p. p.1.cache) h1 in
      (
        record {
          stored = stored;
          same_hash = refl;
          same_expiry = is_json.date_back challenge.expires_at iso dated;
          same_attempts = refl;
          is_value =
              ap (value (otp_key phone)) (sym left)
              ∙ is_cache.sets (otp_key phone) (json.stringify stored) seconds w1.cache positive;
        },
        ap (λ p. p.1.db) (sym h1) ∙ ap (λ o. o.db) same,
      )

  pub save-Holds :
      (phone : Text) (challenge : OtpChallenge) (w out : World State)
      → save cache json phone challenge w ≡ (ok tt, out)
      → Holds phone challenge out.cache × (out.db ≡ w.db)
  unfolding save
  save-Holds phone challenge w out h =
      write_challenge-Holds phone challenge challenge.attempts (pos otp_ttl_seconds) w out refl h

  pub consume_done :
      (phone : Text) (w : World State)
      → (out : World State) × (consume cache json phone w ≡ (ok tt, out))
        × (out.db ≡ w.db)
        × (value (otp_key phone) out.cache ≡ none)
  unfolding consume
  consume_done phone w =
      let s = (cache.del (otp_key phone) w.cache).1 in
      (
        record w { cache = s },
        ap (λ r. (r, record w { cache = s })) (is_cache.del_done (otp_key phone) w.cache),
        refl,
        is_cache.dels (otp_key phone) w.cache,
      )
