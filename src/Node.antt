-- ===== src/Node.antt =====
-- node:crypto and Buffer, which are parameters of the parts that use them.
use sobkichu.Prelude.{
  ℕ, Bool, false, not, ◌==◌, ◌≡◌, if◌then◌else◌, List, length, Text, text_eq, text_eq_iff,
  text_eq_refl, true, ◌↔◌, arith,
}

-- The HMAC-SHA256 of bytes under a secret, the bytes of a hexadecimal text, text in UTF-8, and
-- bytes in base64, both ways.
pub record Node : Type 0 where
  pub digest : Text → List ℕ → List ℕ
  pub from_hex : Text → List ℕ
  pub utf8 : Text → List ℕ
  pub from_utf8 : List ℕ → Text
  pub base64 : List ℕ → Text
  pub from_base64 : Text → List ℕ

-- The check of the lengths, and `timingSafeEqual`.
unfoldable pub same_bytes : List ℕ → List ℕ → Bool
same_bytes provided expected =
    if not (length provided == length expected) then false else text_eq provided expected

pub same_bytes_iff : (p e : List ℕ) → (same_bytes p e ≡ true) ↔ (p ≡ e)
unfolding same_bytes
same_bytes_iff p e =
    (λ h. ground (arith, text_eq_iff p e), λ h. rw h (ground (arith, text_eq_refl e)))
