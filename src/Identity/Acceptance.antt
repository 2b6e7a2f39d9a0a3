-- ===== src/Identity/Acceptance.antt =====
-- Which one-time passwords are accepted.
use sobkichu.Prelude.{
  ℕ, zero, suc, ◌+◌, ◌-◌, ◌*◌, ◌/◌, ◌%◌, ◌^◌, ◌≤◌, ◌<◌, ◌≡◌, ◌≢◌, ◌↔◌, refl, ap, arith, true, false,
  some, List, [], ◌∷◌, ℤ, pos, ◌+ℤ◌, +ℤ_parts, ok, Text, text_eq_iff, text_eq_refl, is_digits,
  is_empty, pad_start, length, length-append, length-replicate, replicate, All, All-append,
}
use sobkichu.Money.{digits, digits_from, absolute}
use sobkichu.Money.Decimal.{IsDigit, is_digits_of_All, digits-IsDigit}
use sobkichu.DeliveryClock.{Date, instant, make_date}
use sobkichu.Identity.Otp.{
  Crypto, OtpChallenge, IssuedOtp, accepted, generate_code, hash_code, expiry, issue_otp, is_after,
  compare_digests, verify_digest, verify_otp,
}

compare_digests_iff : (a b : List ℕ) → (compare_digests a b ≡ accepted) ↔ (a ≡ b)
unfolding compare_digests
compare_digests_iff a b =
    (λ h. ground (arith, text_eq_iff a b), λ h. rw h (ground (arith, text_eq_refl b)))

verify_digest_iff :
    (crypto : Crypto) (c : OtpChallenge) (submitted secret : Text)
    → (verify_digest crypto c submitted secret ≡ ok accepted) ↔ (
        (is_empty secret ≡ false)
        × (crypto.from_hex c.code_hash ≡ crypto.from_hex (crypto.hmac secret submitted)))
unfolding verify_digest hash_code
verify_digest_iff crypto c submitted secret =
    let same =
      compare_digests_iff (crypto.from_hex c.code_hash)
        (crypto.from_hex (crypto.hmac secret submitted)) in
    (λ h. ground (arith, same), λ h. ground (arith, same))

-- A code is accepted exactly if fewer than five attempts were made on its challenge, the challenge
-- has not expired, the code has six digits, and its digest under the configured secret is the
-- stored one.
pub verify_otp_iff :
    (crypto : Crypto) (c : OtpChallenge) (submitted secret : Text) (now : Date)
    → (verify_otp crypto (some c) submitted secret now ≡ ok accepted) ↔ (
        (c.attempts < 5)
        × (is_after now c.expires_at ≡ false)
        × (is_digits submitted ≡ true)
        × (length submitted ≡ 6)
        × (is_empty secret ≡ false)
        × (crypto.from_hex c.code_hash ≡ crypto.from_hex (crypto.hmac secret submitted)))
unfolding verify_otp
verify_otp_iff crypto c submitted secret now =
    let digest = verify_digest_iff crypto c submitted secret in
    (λ h. ground (arith, digest), λ h. ground (arith, digest))

div_below : (n p : ℕ) → n < p * 10 → n / 10 < p
div_below n p h = omega arith

length-digits_from :
    (fuel n k : ℕ) (out : Text)
    → n < 10 ^ suc k
    → length (digits_from fuel n out) ≤ suc k + length out
unfolding digits_from
length-digits_from zero n k out h = omega arith
length-digits_from (suc fuel) n zero out h = ground arith
length-digits_from (suc fuel) n (suc k) out h =
    let small = div_below n (10 ^ suc k) (omega arith) in
    let tail = length-digits_from fuel (n / 10) k ((b'0' + n % 10) ∷ out) small in ground arith

length-digits : (n k : ℕ) → n < 10 ^ suc k → length (digits n) ≤ suc k
unfolding digits
length-digits n k h = let bound = length-digits_from (suc n) n k [] h in omega arith

length-pad_start : (n c : ℕ) (s : Text) → length s ≤ n → length (pad_start n c s) ≡ n
unfolding pad_start
length-pad_start n c s h = rw (length-append, length-replicate) (omega arith)

length-generate_code : (n : ℕ) → n < 1000000 → length (generate_code n) ≡ 6
unfolding generate_code
length-generate_code n h = length-pad_start 6 b'0' (digits n) (length-digits n 5 (omega arith))

replicate-IsDigit : (n : ℕ) → All IsDigit (replicate n b'0')
replicate-IsDigit zero = tt
replicate-IsDigit (suc n) = ((omega arith, omega arith), replicate-IsDigit n)

generate_code-ne-nil : (n : ℕ) → n < 1000000 → generate_code n ≢ []
generate_code-ne-nil n h e =
    let six = length-generate_code n h in let none_left = ap length e in omega arith

generate_code-is_digits : (n : ℕ) → n < 1000000 → is_digits (generate_code n) ≡ true
unfolding generate_code pad_start
generate_code-is_digits n h = is_digits_of_All (generate_code n) (generate_code-ne-nil n h) (
    All-append IsDigit (replicate (6 - length (digits n)) b'0') (digits n)
      (replicate-IsDigit (6 - length (digits n))) (digits-IsDigit n))

not_expired :
    (now : ℤ) (waited : ℕ)
    → absolute now ≤ 8000000000000000
    → waited ≤ 300000
    → is_after (instant (now +ℤ pos waited)) (expiry (instant now)) ≡ false
unfolding is_after expiry make_date
not_expired now waited valid soon =
    ground (arith, +ℤ_parts now (pos (300 * 1000)), +ℤ_parts now (pos waited))

-- A code that is issued has six digits, and is accepted for five minutes on its fresh challenge.
pub issue_otp-verify_otp :
    (crypto : Crypto) (secret : Text) (now : ℤ) (waited random : ℕ)
    → is_empty secret ≡ false
    → absolute now ≤ 8000000000000000
    → waited ≤ 300000
    → random < 1000000
    → (issued : IssuedOtp) × (issue_otp crypto secret (instant now) random ≡ ok issued)
      × (length issued.code ≡ 6)
      × (verify_otp crypto (some issued.challenge) issued.code secret (instant (now +ℤ pos waited))
          ≡ ok accepted)
unfolding issue_otp hash_code
issue_otp-verify_otp crypto secret now waited random keyed valid soon drawn =
    let code = generate_code random in
    let challenge : OtpChallenge = record {
      code_hash = crypto.hmac secret code;
      expires_at = expiry (instant now);
      attempts = 0;
    } in
    (
      record { code = code; challenge = challenge },
      rw keyed refl,
      length-generate_code random drawn,
      (verify_otp_iff crypto challenge code secret (instant (now +ℤ pos waited))).1 (
        omega arith,
        not_expired now waited valid soon,
        generate_code-is_digits random drawn,
        length-generate_code random drawn,
        keyed,
        refl,
      ),
    )
