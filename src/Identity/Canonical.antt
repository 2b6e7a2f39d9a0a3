-- ===== src/Identity/Canonical.antt =====
-- The normal forms of phone and identity-card numbers.
use sobkichu.Prelude.{
  ℕ, ◌≡◌, refl, ◌∙◌, ap, arith, Bool, true, false, ◌&&◌, Bool-cases, inl, inr, none, some, [], ◌∷◌,
  length, Text, is_digit, is_digits, is_space, all_chars, strip, if◌then◌else◌,
}
use sobkichu.Identity.Numbers.{
  is_blank_or_dash, is_nid_length, normalise_nid_number, is_separator, drop_plus, is_mobile,
  is_local, is_international, drop_first, canonical_phone, normalise_bd_phone,
}

digit_separates : (c : ℕ) → is_digit c ≡ true → is_separator c ≡ false
unfolding is_separator is_space
digit_separates c h = ground arith

digit_blank : (c : ℕ) → is_digit c ≡ true → is_blank_or_dash c ≡ false
unfolding is_blank_or_dash is_space
digit_blank c h = ground arith

strip_digits :
    (p : ℕ → Bool) (s : Text)
    → ((c : ℕ) → is_digit c ≡ true → p c ≡ false)
    → all_chars is_digit s ≡ true
    → strip p s ≡ s
unfolding strip all_chars
strip_digits p [] keeps h = refl
strip_digits p (c ∷ s) keeps h = elim (Bool-cases (is_digit c)) [
  | inl digit ↦ ground (arith, keeps c digit, strip_digits p s keeps)
  | inr other ↦ ground arith
]

digits-all : (s : Text) → is_digits s ≡ true → all_chars is_digit s ≡ true
unfolding is_digits
digits-all s h = ground arith

accepted_nid :
    (d nid : Text)
    → (if is_digits d && is_nid_length (length d) then some d else none) ≡ some nid
    → (d ≡ nid) × (is_digits nid ≡ true) × (is_nid_length (length nid) ≡ true)
accepted_nid d nid h = elim (Bool-cases (is_digits d)) [
  | inl digits ↦ elim (Bool-cases (is_nid_length (length d))) [
    | inl long ↦ let same : d ≡ nid = ground arith in (same, rw same at digits, rw same at long)
    | inr short ↦ ground arith
  ]
  | inr other ↦ ground arith
]

-- The normal form of an identity number is its own normal form: ten, thirteen or seventeen digits.
pub normalise_nid_number_idem :
    (input nid : Text)
    → normalise_nid_number input ≡ some nid
    → (normalise_nid_number nid ≡ some nid)
      × (is_digits nid ≡ true)
      × (is_nid_length (length nid) ≡ true)
unfolding normalise_nid_number
normalise_nid_number_idem input nid h =
    let (_, digits, long) = accepted_nid (strip is_blank_or_dash input) nid h in
    (
      rw (strip_digits is_blank_or_dash nid digit_blank (digits-all nid digits), digits, long) refl,
      digits,
      long,
    )

mobile_digits : (s : Text) → is_mobile s ≡ true → all_chars is_digit s ≡ true
unfolding is_mobile all_chars
mobile_digits [] h = cc
mobile_digits (a ∷ []) h = cc
mobile_digits (a ∷ b ∷ s) h = ground arith

mobile_of_local : (d : Text) → is_local d ≡ true → is_mobile (drop_first d) ≡ true
unfolding is_local drop_first
mobile_of_local [] h = cc
mobile_of_local (a ∷ s) h = ground arith

mobile_of_international :
    (d : Text)
    → is_international d ≡ true
    → (s : Text) × (is_mobile s ≡ true) × (d ≡ b'8' ∷ b'8' ∷ b'0' ∷ s)
unfolding is_international
mobile_of_international [] h = cc
mobile_of_international (a ∷ []) h = cc
mobile_of_international (a ∷ b ∷ []) h = cc
mobile_of_international (a ∷ b ∷ c ∷ s) h = (s, ground arith, ground arith)

canonical_phone-international :
    (digits phone : Text)
    → canonical_phone digits ≡ some phone
    → (s : Text) × (is_mobile s ≡ true) × (phone ≡ b'+' ∷ b'8' ∷ b'8' ∷ b'0' ∷ s)
unfolding canonical_phone
canonical_phone-international digits phone h = elim (Bool-cases (is_local digits)) [
  | inl home ↦ (drop_first digits, mobile_of_local digits home, ground arith)
  | inr abroad ↦ elim (Bool-cases (is_international digits)) [
    | inl country ↦
        let (s, mobile, shape) = mobile_of_international digits country in
        let same : phone ≡ b'+' ∷ digits = ground arith in
        (s, mobile, same ∙ ap (λ d. b'+' ∷ d) shape)
    | inr neither ↦ ground arith
  ]
]

international_phone :
    (s : Text)
    → is_mobile s ≡ true
    → normalise_bd_phone (b'+' ∷ b'8' ∷ b'8' ∷ b'0' ∷ s) ≡ some (b'+' ∷ b'8' ∷ b'8' ∷ b'0' ∷ s)
unfolding normalise_bd_phone strip is_separator is_space drop_plus canonical_phone is_local
    is_international
international_phone s mobile =
    rw (strip_digits is_separator s digit_separates (mobile_digits s mobile), mobile) refl

-- The normal form of a phone number is the country code and a mobile number, and its own normal form.
pub normalise_bd_phone_idem :
    (input phone : Text)
    → normalise_bd_phone input ≡ some phone
    → (normalise_bd_phone phone ≡ some phone)
      × ((s : Text) × (is_mobile s ≡ true) × (phone ≡ b'+' ∷ b'8' ∷ b'8' ∷ b'0' ∷ s))
normalise_bd_phone_idem input phone h =
    let (s, mobile, shape) =
      canonical_phone-international (drop_plus (strip is_separator input)) phone
        (unfold normalise_bd_phone in h) in
    (rw shape (international_phone s mobile), (s, mobile, shape))
