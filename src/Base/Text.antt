-- ===== src/Base/Text.antt =====
-- Texts as lists of bytes: `std::string` and C strings without their NUL.
use Prim.Native.Nat.{ℕ}
use Prim.Native.Char.{code}
use Prim.Native.String.{String}
use mathlib.Core.Path.{◌≡◌, refl}
use mathlib.Core.Bool.{Bool, true, false, ◌&&◌}
use mathlib.Core.List.{List, [], ◌∷◌, ◌++◌}
use native.Mathlib.Omega.{arith}
use epoxy_duino.Base.Tests.{◌==◌}

abbrev pub Bytes : Type 0
Bytes = List ℕ

-- the bytes of an ASCII literal
abbrev pub codes : String → Bytes
codes String.[] = []
codes (String.◌∷◌ c s) = code c ∷ codes s

-- `s[0]`, which is the NUL of an empty text
abbrev pub first : Bytes → ℕ
first [] = 0
first (c ∷ cs) = c

unfoldable pub same_text : Bytes → Bytes → Bool
same_text [] [] = true
same_text [] (b ∷ bs) = false
same_text (a ∷ as') [] = false
same_text (a ∷ as') (b ∷ bs) = a == b && same_text as' bs

pub same_text_eq : (a b : Bytes) → same_text a b ≡ true → a ≡ b
unfolding same_text
same_text_eq [] [] h = refl
same_text_eq [] (b ∷ bs) h = cc
same_text_eq (a ∷ as') [] h = cc
same_text_eq (a ∷ as') (b ∷ bs) h = ground (arith, same_text_eq as' bs)

pub same_text_self : (a : Bytes) → same_text a a ≡ true
unfolding same_text
same_text_self [] = refl
same_text_self (a ∷ as') = ground (arith, same_text_self as')

module _ {ℓ} (P : ℕ → Type ℓ) where
  abbrev pub All : Bytes → Type ℓ
  All [] = Unit
  All (c ∷ cs) = P c × All cs

  pub All-append : (xs ys : Bytes) → All xs → All ys → All (xs ++ ys)
  All-append [] ys hx hy = hy
  All-append (x ∷ xs) ys hx hy = (hx.0, All-append xs ys hx.1 hy)
