-- ===== src/Notification/Placeholders.antt =====
-- Templates as plain text and named slots.
use mathlib.Core.List.{Memᴰ}
use sobkichu.Prelude.{
  Bool, false, ◌||◌, ◌≢◌, ◌⊎◌, sym, subst, lit, text_eq, text_eq_iff, Option-cases,
  missing_template, ℕ, ◌≡◌, refl, ◌∙◌, ap, arith, true, Bool-cases, inl, inr, none, some, List, [],
  ◌∷◌, ◌++◌, append_assoc, append-nil, ◌==◌, Result, Result-cases, ok, err, ◌>>=◌, All, String,
  Text, any_char, all_chars, is_empty,
}
use sobkichu.Notification.Render.{find_param, is_word, param_or_throw, scan, substitute}
use mathlib.Core.List.Memᴰ.{head, tail}

-- A template as its author reads it: plain text and named slots.
pub data Piece : Type 0 where
  plain : Text → Piece
  slot : Text → Piece

abbrev pub written : List Piece → Text
written [] = []
written (plain s ∷ pieces) = s ++ written pieces
written (slot key ∷ pieces) = b'{' ∷ (key ++ b'}' ∷ written pieces)

abbrev pub filled : List (String × Text) → List Piece → Result Text
filled params [] = ok []
filled params (plain s ∷ pieces) = filled params pieces >>= (λ rest. ok (s ++ rest))
filled params (slot key ∷ pieces) =
    param_or_throw key params >>= (λ value. filled params pieces >>= (λ rest. ok (value ++ rest)))

-- The names that every JavaScript object has, which an index finds beside an object's own.
abbrev pub inherited_names : List String
inherited_names =
    "constructor" ∷ "toString" ∷ "toLocaleString" ∷ "valueOf" ∷ "hasOwnProperty" ∷ "isPrototypeOf"
    ∷ "propertyIsEnumerable" ∷ "__proto__" ∷ "__defineGetter__" ∷ "__defineSetter__"
    ∷ "__lookupGetter__" ∷ "__lookupSetter__" ∷ []

unfoldable pub is_among : Text → List String → Bool
unfolding lit text_eq
is_among key [] = false
is_among key (name ∷ names) = text_eq (lit name) key || is_among key names

-- Plain text has no opening brace, and a slot is a word, but not the name of a property that every
-- object inherits.
abbrev pub IsPiece : Piece → Type 0
IsPiece (plain s) = any_char (λ c. c == b'{') s ≡ false
IsPiece (slot key) =
    (all_chars is_word key ≡ true) × (is_empty key ≡ false) × (is_among key inherited_names ≡ false)

>>=-assoc :
    {A B C : Type 0} (r : Result A) (f : A → Result B) (g : B → Result C)
    → ((r >>= f) >>= g) ≡ (r >>= (λ a. f a >>= g))
>>=-assoc (ok a) f g = refl
>>=-assoc (err e) f g = refl

scan-plain :
    (params : List (String × Text)) (s t : Text)
    → any_char (λ c. c == b'{') s ≡ false
    → scan params none (s ++ t) ≡ (scan params none t >>= (λ rest. ok (s ++ rest)))
unfolding scan any_char
scan-plain params [] t h = elim (Result-cases (scan params none t)) [
  | inl (r, e) ↦ rw e refl
  | inr (x, e) ↦ rw e refl
]
scan-plain params (c ∷ s) t h = elim (Bool-cases (c == b'{')) [
  | inl brace ↦ ground arith
  | inr other ↦
      let tail = scan-plain params s t (ground arith) in
      rw (other, tail)
        (>>=-assoc (scan params none t) (λ rest. ok (s ++ rest)) (λ rest. ok (c ∷ rest)))
]

word_brace : (c : ℕ) → is_word c ≡ true → (c == b'}') ≡ false
unfolding is_word
word_brace c h = ground arith

scan-slot :
    (params : List (String × Text)) (seen key t : Text)
    → all_chars is_word key ≡ true
    → is_empty (seen ++ key) ≡ false
    → scan params (some seen) (key ++ b'}' ∷ t) ≡ (
        param_or_throw (seen ++ key) params
        >>= (λ value. scan params none t >>= (λ rest. ok (value ++ rest))))
unfolding scan all_chars
scan-slot params seen [] t word some_key =
    let given : is_empty seen ≡ false = rw (append-nil seen) at some_key in
    rw (append-nil seen, given) refl
scan-slot params seen (c ∷ key) t word some_key = elim (Bool-cases (is_word c)) [
  | inl letter ↦
      let same = append_assoc seen (c ∷ []) key in
      let tail =
        scan-slot params (seen ++ c ∷ []) key t (ground arith) (ap is_empty same ∙ some_key) in
      rw (letter, ← same) tail
  | inr other ↦ ground arith
]

-- Substitution in a template that is written of pieces goes by its pieces.
substitute-written :
    (params : List (String × Text)) (pieces : List Piece)
    → All IsPiece pieces
    → substitute (written pieces) params ≡ filled params pieces
unfolding substitute
substitute-written params [] h = unfold scan in refl
substitute-written params (plain s ∷ pieces) h =
    scan-plain params s (written pieces) h.0
    ∙ ap (λ r. r >>= (λ rest. ok (s ++ rest))) (substitute-written params pieces h.1)
substitute-written params (slot key ∷ pieces) h =
    unfold scan in
    scan-slot params [] key (written pieces) h.0.0 h.0.1
    ∙ ap (λ r. param_or_throw key params >>= (λ value. r >>= (λ rest. ok (value ++ rest))))
        (substitute-written params pieces h.1)

-- The first parameter of a name has a value.
abbrev pub LooksUp : Text → List (String × Text) → Text → Type 0
LooksUp key [] value = ⊥
LooksUp key ((name, given) ∷ params) value =
    ((lit name ≡ key) × (given ≡ value)) ⊎ ((lit name ≢ key) × LooksUp key params value)

-- The text that the pieces make: each slot is the value of its parameter, and the rest is kept.
abbrev pub IsFilled : List (String × Text) → List Piece → Text → Type 0
IsFilled params [] out = out ≡ []
IsFilled params (plain s ∷ pieces) out =
    (rest : Text) × (out ≡ s ++ rest) × IsFilled params pieces rest
IsFilled params (slot key ∷ pieces) out =
    (value : Text) × (rest : Text) × LooksUp key params value
    × (out ≡ value ++ rest)
    × IsFilled params pieces rest

-- Some slot has no parameter of its name.
abbrev pub LacksParameter : List (String × Text) → List Piece → Type 0
LacksParameter params pieces =
    (key : Text) × Memᴰ (slot key) pieces × All (λ param. lit param.0 ≢ key) params

differs : (s t : Text) → text_eq s t ≡ false → s ≢ t
differs s t h same = let found = (text_eq_iff s t).1 same in cc

found-LooksUp :
    (key : Text) (params : List (String × Text)) (value : Text)
    → find_param key params ≡ some value
    → LooksUp key params value
unfolding find_param
found-LooksUp key [] value h = absurd (cc)
found-LooksUp key ((name, given) ∷ params) value h = elim (Bool-cases (text_eq (lit name) key)) [
  | inl named ↦ inl ((text_eq_iff (lit name) key).0 named, ground arith)
  | inr other ↦ inr (differs (lit name) key other, found-LooksUp key params value (ground arith))
]

missing-All :
    (key : Text) (params : List (String × Text))
    → find_param key params ≡ none
    → All (λ param. lit param.0 ≢ key) params
unfolding find_param
missing-All key [] h = tt
missing-All key ((name, given) ∷ params) h = elim (Bool-cases (text_eq (lit name) key)) [
  | inl named ↦ absurd (ground arith)
  | inr other ↦ (differs (lit name) key other, missing-All key params (ground arith))
]

-- What filling ends in.
abbrev Fills : List (String × Text) → List Piece → Result Text → Type 0
Fills params pieces result =
    ((out : Text) × (result ≡ ok out) × IsFilled params pieces out)
    ⊎ ((result ≡ err (missing_template "Missing parameter for notification"))
        × LacksParameter params pieces)

filled-Fills :
    (params : List (String × Text)) (pieces : List Piece)
    → Fills params pieces (filled params pieces)
filled-Fills params [] = inl ([], refl, refl)
filled-Fills params (plain s ∷ pieces) = elim (filled-Fills params pieces) [
  | inl (rest, made, fills) ↦ inl (s ++ rest, rw made refl, (rest, refl, fills))
  | inr (thrown, (key, member, absent)) ↦ inr (rw thrown refl, (key, tail member, absent))
]
filled-Fills params (slot key ∷ pieces) = elim (Option-cases (find_param key params)) [
  | inl missing ↦ inr (rw missing refl, (key, head refl, missing-All key params missing))
  | inr (value, found) ↦ elim (filled-Fills params pieces) [
    | inl (rest, made, fills) ↦ inl (
      value ++ rest,
      rw (found, made) refl,
      (value, rest, found-LooksUp key params value found, refl, fills),
    )
    | inr (thrown, (name, member, absent)) ↦
        inr (rw (found, thrown) refl, (name, tail member, absent))
  ]
]

-- Where plain text has no opening brace, and every slot is a word that is not the name of a property
-- of every object, substitution either puts the first parameter of its name in the place of each
-- slot and keeps the rest, or throws the error of a missing parameter, and then a slot has none.
pub substitute_fills :
    (params : List (String × Text)) (pieces : List Piece)
    → All IsPiece pieces
    → ((out : Text) × (substitute (written pieces) params ≡ ok out) × IsFilled params pieces out)
      ⊎ ((substitute (written pieces) params
            ≡ err (missing_template "Missing parameter for notification"))
          × LacksParameter params pieces)
substitute_fills params pieces h =
    subst (Fills params pieces) (sym (substitute-written params pieces h))
      (filled-Fills params pieces)
