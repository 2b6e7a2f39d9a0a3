-- ===== src/Session/Toy.antt =====
-- A small instance of Buffer, node:crypto and JSON, which the tests use.
use sobkichu.Prelude.{
  ℕ, zero, suc, ◌≡◌, refl, ap, ◌∙◌, true, Option, none, some, List, [], ◌∷◌, ◌++◌, length, take,
  drop, Text, pos, All, append-nil, take_prefix, drop_prefix, arith, ◌+◌, ◌/◌, ◌*◌, ◌%◌, ◌==◌,
  if◌then◌else◌,
}
use sobkichu.Node.{Node}
use sobkichu.Session.Token.{JsonText, Parsed, unparsable, parsed_value}
use sobkichu.Session.Base64.{IsBase64, is_base64}
use sobkichu.Session.Issued.{IsDocumented}

-- A number in unary, and bytes one after the other.
abbrev unary : ℕ → Text → Text
unary zero s = b'B' ∷ s
unary (suc n) s = b'A' ∷ unary n s

abbrev toy_base64 : List ℕ → Text
toy_base64 [] = []
toy_base64 (c ∷ s) = unary c (toy_base64 s)

abbrev read_unary : ℕ → Text → List ℕ
read_unary n [] = []
read_unary n (c ∷ s) =
    let more = read_unary (suc n) s in
    let next = read_unary zero s in if c == b'A' then more else n ∷ next

plus_suc : (n m : ℕ) → suc n + m ≡ n + suc m
plus_suc n m = omega arith

zero_plus : (n : ℕ) → 0 + n ≡ n
zero_plus n = omega arith

read_back_unary : (n m : ℕ) (s : Text) → read_unary n (unary m s) ≡ (n + m) ∷ read_unary zero s
read_back_unary n zero s = ap (λ k. k ∷ read_unary zero s) (omega arith)
read_back_unary n (suc m) s =
    read_back_unary (suc n) m s ∙ ap (λ k. k ∷ read_unary zero s) (plus_suc n m)

read_back : (bytes : List ℕ) → read_unary zero (toy_base64 bytes) ≡ bytes
read_back [] = refl
read_back (c ∷ s) =
    read_back_unary zero c (toy_base64 s)
    ∙ ap (λ k. k ∷ read_unary zero (toy_base64 s)) (zero_plus c)
    ∙ ap (λ t. c ∷ t) (read_back s)

unary_alphabet :
    (n : ℕ) (s : Text) → All (λ c. is_base64 c ≡ true) s → All (λ c. is_base64 c ≡ true) (unary n s)
unary_alphabet zero s h = (refl, h)
unary_alphabet (suc n) s h = (refl, unary_alphabet n s h)

toy_alphabet : (bytes : List ℕ) → All (λ c. is_base64 c ≡ true) (toy_base64 bytes)
toy_alphabet [] = tt
toy_alphabet (c ∷ s) = unary_alphabet c (toy_base64 s) (toy_alphabet s)

abbrev pub toy : Node
toy = record {
  digest = λ key bytes. length key ∷ length bytes ∷ [];
  from_hex = λ s. s;
  utf8 = λ s. s;
  from_utf8 = λ bytes. bytes;
  base64 = toy_base64;
  from_base64 = read_unary zero;
}

toy-IsBase64 : IsBase64 toy
toy-IsBase64 = record {
  unpadded = toy_base64;
  padding = λ _. 0;
  written = λ bytes. sym_nil (toy_base64 bytes);
  alphabet = toy_alphabet;
  read = read_back;
  read_empty = refl;
}
  where
    sym_nil : (s : Text) → s ≡ s ++ []
    sym_nil s = cc (append-nil s)

abbrev write_role : Option Text → Text
write_role none = []
write_role (some role) = 1 ∷ role

abbrev read_role : Text → Option Text
read_role [] = none
read_role (_ ∷ role) = some role

read_role-write_role : (role : Option Text) → read_role (write_role role) ≡ role
read_role-write_role none = refl
read_role-write_role (some role) = refl

two_digits : (n : ℕ) → n / 2000 * 2000 + n % 2000 ≡ n
two_digits n = omega arith

abbrev toy_parse : Text → Parsed
toy_parse [] = unparsable
toy_parse (high ∷ []) = unparsable
toy_parse (high ∷ low ∷ []) = unparsable
toy_parse (high ∷ low ∷ n ∷ s) = parsed_value (record {
  sub = some (take n s);
  active_role_id = read_role (drop n s);
  exp = some (pos (high * 2000 + low));
})

abbrev pub toy_json : JsonText
toy_json = record {
  stringify = λ payload.
      (payload.exp / 2000)
      ∷ (payload.exp % 2000)
      ∷ length payload.sub
      ∷ (payload.sub ++ write_role payload.active_role_id);
  parse = toy_parse;
}

pub toy-IsDocumented : IsDocumented toy toy_json
toy-IsDocumented = record {
  base64 = toy-IsBase64;
  digest_bytes = λ key bytes e. cc;
  json_back = λ payload.
      rw
        (
          take_prefix payload.sub (write_role payload.active_role_id),
          drop_prefix payload.sub (write_role payload.active_role_id),
          read_role-write_role payload.active_role_id,
          two_digits payload.exp,
        )
        refl;
  json_empty = refl;
}
