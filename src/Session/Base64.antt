-- ===== src/Session/Base64.antt =====
-- The base64url of session-token.ts: what is documented of Buffer's base64, and the way back.
use sobkichu.Prelude.{
  ℕ, zero, suc, ◌≡◌, ◌≢◌, refl, sym, ap, ◌∙◌, subst, Bool, true, false, ◌&&◌, ◌||◌, List, [], ◌∷◌,
  ◌++◌, map, reverse, reverse-append, reverse-reverse, map-append, leb, ◌==◌, Text, is_digit,
  is_empty, replicate, All, All-reverse, arith,
}
use sobkichu.Node.{Node}
use sobkichu.Session.Token.{to_url, of_url, drop_padding, b64url, from_b64url, split_dots}

-- The alphabet of base64, without the padding.
abbrev pub is_base64 : ℕ → Bool
is_base64 c =
    is_digit c || (leb b'A' c && leb c b'Z') || (leb b'a' c && leb c b'z') || c == b'+' || c == b'/'

-- Buffer writes base64 as characters of the alphabet and padding, and reads it without the padding.
pub record IsBase64 (node : Node) : Type 0 where
  pub unpadded : List ℕ → Text
  pub padding : List ℕ → ℕ
  pub written :
      (bytes : List ℕ) → node.base64 bytes ≡ unpadded bytes ++ replicate (padding bytes) b'='
  pub alphabet : (bytes : List ℕ) → All (λ c. is_base64 c ≡ true) (unpadded bytes)
  pub read : (bytes : List ℕ) → node.from_base64 (unpadded bytes) ≡ bytes
  pub read_empty : node.from_base64 [] ≡ []

-- A character of base64url.
abbrev pub IsUrl : ℕ → Type 0
IsUrl c = ((c == b'=') ≡ false) × ((c == b'.') ≡ false)

to_url-IsUrl : (c : ℕ) → is_base64 c ≡ true → IsUrl (to_url c)
to_url-IsUrl c h = (ground arith, ground arith)

of_url-to_url : (c : ℕ) → is_base64 c ≡ true → of_url (to_url c) ≡ c
of_url-to_url c h = ground arith

map_back : (s : Text) → All (λ c. is_base64 c ≡ true) s → map of_url (map to_url s) ≡ s
map_back [] h = refl
map_back (c ∷ s) (hc, h) = rw (of_url-to_url c hc, map_back s h) refl

map-IsUrl : (s : Text) → All (λ c. is_base64 c ≡ true) s → All IsUrl (map to_url s)
map-IsUrl [] h = tt
map-IsUrl (c ∷ s) (hc, h) = (to_url-IsUrl c hc, map-IsUrl s h)

map_padding : (n : ℕ) → map to_url (replicate n b'=') ≡ replicate n b'='
map_padding zero = refl
map_padding (suc n) = rw (map_padding n) refl

All-padding : (n : ℕ) → All (λ c. (c == b'=') ≡ true) (replicate n b'=')
All-padding zero = tt
All-padding (suc n) = (refl, All-padding n)

drop-All : (p s : Text) → All (λ c. (c == b'=') ≡ true) p → drop_padding (p ++ s) ≡ drop_padding s
unfolding drop_padding
drop-All [] s h = refl
drop-All (c ∷ p) s (hc, h) = rw (hc, drop-All p s h) refl

keep-All : (s : Text) → All IsUrl s → drop_padding s ≡ s
unfolding drop_padding
keep-All [] h = refl
keep-All (c ∷ s) (hc, h) = rw hc.0 refl

stripped :
    (s : Text) (n : ℕ) → All IsUrl s → reverse (drop_padding (reverse (s ++ replicate n b'='))) ≡ s
stripped s n h =
    ap (λ t. reverse (drop_padding t)) (reverse-append s (replicate n b'='))
    ∙ ap reverse
        (drop-All (reverse (replicate n b'=')) (reverse s) (All-reverse _ _ (All-padding n)))
    ∙ ap reverse (keep-All (reverse s) (All-reverse IsUrl s h))
    ∙ reverse-reverse s

not_empty : (s : Text) → s ≢ [] → is_empty s ≡ false
unfolding is_empty
not_empty [] h = absurd (h refl)
not_empty (c ∷ s) h = refl

module _ (node : Node) (base64 : IsBase64 node) (bytes : List ℕ) where
  b64url_unpadded : b64url node bytes ≡ map to_url (base64.unpadded bytes)
  unfolding b64url
  b64url_unpadded =
      ap (λ s. reverse (drop_padding (reverse (map to_url s)))) (base64.written bytes)
      ∙ ap (λ s. reverse (drop_padding (reverse s)))
          (map-append to_url (base64.unpadded bytes) (replicate (base64.padding bytes) b'=')
            ∙ ap (λ p. map to_url (base64.unpadded bytes) ++ p)
                (map_padding (base64.padding bytes)))
      ∙ stripped (map to_url (base64.unpadded bytes)) (base64.padding bytes)
          (map-IsUrl (base64.unpadded bytes) (base64.alphabet bytes))

  pub from_b64url-b64url : from_b64url node (b64url node bytes) ≡ bytes
  unfolding from_b64url
  from_b64url-b64url =
      ap (λ s. node.from_base64 (map of_url s)) b64url_unpadded
      ∙ ap node.from_base64 (map_back (base64.unpadded bytes) (base64.alphabet bytes))
      ∙ base64.read bytes

  pub b64url-IsUrl : All IsUrl (b64url node bytes)
  b64url-IsUrl =
      subst (All IsUrl) (sym b64url_unpadded)
        (map-IsUrl (base64.unpadded bytes) (base64.alphabet bytes))

  pub b64url_nonempty : bytes ≢ [] → is_empty (b64url node bytes) ≡ false
  unfolding from_b64url
  b64url_nonempty some_bytes = not_empty (b64url node bytes) (λ none_left.
      some_bytes (sym from_b64url-b64url ∙ ap (from_b64url node) none_left ∙ base64.read_empty))

-- The two parts of a token come apart at its only dot.
split_one : (s : Text) → All IsUrl s → split_dots s ≡ (s, [])
unfolding split_dots
split_one [] h = refl
split_one (c ∷ s) (hc, h) = rw (split_one s h, hc.1) refl

pub split_two :
    (p s : Text) → All IsUrl p → All IsUrl s → split_dots (p ++ (b'.' ∷ s)) ≡ (p, s ∷ [])
unfolding split_dots
split_two [] s hp hs = rw (split_one s hs) refl
split_two (c ∷ p) s (hc, hp) hs = rw (split_two p s hp hs, hc.1) refl
