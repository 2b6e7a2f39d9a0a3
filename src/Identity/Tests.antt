-- ===== src/Identity/Tests.antt =====
-- Numbers and one-time passwords. The digest of these tests is the code behind its secret.
use sobkichu.Prelude.{
  all_chars, is_space, strip, ◌≡◌, ◌++◌, refl, pos, none, some, ok, lit, is_digits,
}
use sobkichu.Identity.Numbers.{
  is_separator, is_blank_or_dash, normalise_nid_number, normalise_bd_phone,
}
use sobkichu.DeliveryClock.{instant}
use sobkichu.Identity.Otp.{Crypto, OtpChallenge, declined, too_many_attempts, verify_otp}

nid_run : normalise_nid_number (lit "123-456 7890") ≡ some (lit "1234567890")
unfolding normalise_nid_number lit is_digits strip is_blank_or_dash is_space
nid_run = refl

phone_run : normalise_bd_phone (lit "01711-111 111") ≡ some (lit "+8801711111111")
unfolding normalise_bd_phone lit strip is_separator is_space all_chars
phone_run = refl

landline : normalise_bd_phone (lit "0212345678") ≡ none
unfolding normalise_bd_phone lit strip is_separator is_space
landline = refl

abbrev plain : Crypto
plain = record { hmac = λ secret code. secret ++ code; from_hex = λ s. s }

abbrev worn : OtpChallenge
worn = record { code_hash = lit "k000042"; expires_at = instant (pos 9000); attempts = 5 }

worn_out :
    verify_otp plain (some worn) (lit "000042") (lit "k") (instant (pos 1))
    ≡ ok (declined too_many_attempts)
unfolding verify_otp lit
worn_out = refl
