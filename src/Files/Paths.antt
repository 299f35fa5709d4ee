-- ===== src/Files/Paths.antt =====
-- The joining and the last part of paths (libraries/EpoxyFS/src/EpoxyFS.cpp and EpoxyFS.h).
use epoxy_duino.Base.{
  ℕ, ◌≡◌, ◌≢◌, refl, sym, ap, ◌∙◌, true, false, if◌then◌else◌, ◌==◌, [], ◌∷◌, ◌++◌, append_assoc,
  append-nil, Bool-cases, inl, inr,
}
use native.Mathlib.Omega.{arith}
use epoxy_duino.Base.Text.{Bytes, first, All}
use epoxy_duino.Files.{tail_of, last_byte, file_name_concat, base_name}

-- a path without one slash at its end, and without one at its start
abbrev pub strip_last : Bytes → Bytes
strip_last [] = []
strip_last (c ∷ []) = if c == b'/' then [] else c ∷ []
strip_last (c ∷ d ∷ cs) = c ∷ strip_last (d ∷ cs)

abbrev pub strip_first : Bytes → Bytes
strip_first [] = []
strip_first (c ∷ cs) = if c == b'/' then cs else c ∷ cs

strip_last_slash : (a x : Bytes) → (last_byte a == b'/') ≡ true → strip_last a ++ b'/' ∷ x ≡ a ++ x
strip_last_slash [] x h = ground (arith, h)
strip_last_slash (c ∷ []) x h = let same : c ≡ b'/' = ground (arith, h) in rw (h, same) refl
strip_last_slash (c ∷ d ∷ cs) x h = ap (◌∷◌ c) (strip_last_slash (d ∷ cs) x h)

strip_last_other : (a : Bytes) → (last_byte a == b'/') ≡ false → strip_last a ≡ a
strip_last_other [] h = refl
strip_last_other (c ∷ []) h = rw h refl
strip_last_other (c ∷ d ∷ cs) h = ap (◌∷◌ c) (strip_last_other (d ∷ cs) h)

strip_first_slash : (b : Bytes) → (first b == b'/') ≡ true → b'/' ∷ strip_first b ≡ b
strip_first_slash [] h = ground (arith, h)
strip_first_slash (c ∷ cs) h = let same : c ≡ b'/' = ground (arith, h) in rw (h, same) refl

strip_first_other : (b : Bytes) → (first b == b'/') ≡ false → strip_first b ≡ b
strip_first_other [] h = refl
strip_first_other (c ∷ cs) h = rw h refl

tail_strips : (b : Bytes) → (first b == b'/') ≡ true → tail_of b ≡ strip_first b
tail_strips [] h = refl
tail_strips (c ∷ cs) h = rw h refl

-- fileNameConcat() is the two paths, without a slash at the end of the first and at the start of the
-- second, with one slash between them.
pub file_name_concat_lem :
    (a b : Bytes) → file_name_concat a b ≡ strip_last a ++ b'/' ∷ strip_first b
unfolding file_name_concat
file_name_concat_lem a b = elim (Bool-cases (last_byte a == b'/')) [
  | inl l ↦ elim (Bool-cases (first b == b'/')) [
    | inl f ↦ rw (l, f, strip_last_slash a (strip_first b) l, tail_strips b f) refl
    | inr f ↦ rw (l, f, strip_last_slash a (strip_first b) l, strip_first_other b f) refl
  ]
  | inr l ↦ elim (Bool-cases (first b == b'/')) [
    | inl f ↦ rw (l, f, strip_last_other a l, strip_first_slash b f) refl
    | inr f ↦ rw (l, f, strip_last_other a l, strip_first_other b f) refl
  ]
]

strip_last-append :
    (xs : Bytes) (y : ℕ) (ys : Bytes) → strip_last (xs ++ y ∷ ys) ≡ xs ++ strip_last (y ∷ ys)
strip_last-append [] y ys = refl
strip_last-append (x ∷ []) y ys = refl
strip_last-append (x ∷ x' ∷ xs) y ys = ap (◌∷◌ x) (strip_last-append (x' ∷ xs) y ys)

-- Both ways to join three paths.
parts_lem :
    (r p n : Bytes)
    → p ≢ []
    → strip_last (r ++ b'/' ∷ strip_first p) ++ b'/' ∷ n
      ≡ r ++ b'/' ∷ strip_first (strip_last p ++ b'/' ∷ n)
parts_lem r [] n h = absurd (h refl)
parts_lem r (c ∷ []) n h = elim (Bool-cases (c == b'/')) [
  | inl e ↦ rw (e, strip_last-append r b'/' [], append-nil r) refl
  | inr e ↦ rw (e, strip_last-append r b'/' (c ∷ []), e) (append_assoc r (b'/' ∷ c ∷ []) (b'/' ∷ n))
]
parts_lem r (c ∷ d ∷ cs) n h = elim (Bool-cases (c == b'/')) [
  | inl e ↦
      rw (e, strip_last-append r b'/' (d ∷ cs))
        (append_assoc r (b'/' ∷ strip_last (d ∷ cs)) (b'/' ∷ n))
  | inr e ↦
      rw (e, strip_last-append r b'/' (c ∷ d ∷ cs))
        (append_assoc r (b'/' ∷ c ∷ strip_last (d ∷ cs)) (b'/' ∷ n))
]

-- For a second path that is not empty, joining three paths from the left or from the right is the
-- same: a file that is opened through its directory is the one that its whole path opens.
file_name_concat_assoc :
    (r p n : Bytes)
    → p ≢ []
    → file_name_concat (file_name_concat r p) n ≡ file_name_concat r (file_name_concat p n)
file_name_concat_assoc r p n h =
    file_name_concat_lem (file_name_concat r p) n
    ∙ ap (λ x. strip_last x ++ b'/' ∷ strip_first n) (file_name_concat_lem r p)
    ∙ parts_lem (strip_last r) p (strip_first n) h
    ∙ ap (λ x. strip_last r ++ b'/' ∷ strip_first x) (sym (file_name_concat_lem p n))
    ∙ sym (file_name_concat_lem r (file_name_concat p n))

abbrev pub NoSlash : ℕ → Type 0
NoSlash c = (c == b'/') ≡ false

base_name-plain : (whole name : Bytes) → All NoSlash name → base_name whole name ≡ whole
unfolding base_name
base_name-plain whole [] all = refl
base_name-plain whole (c ∷ cs) (h, all) = rw h (base_name-plain whole cs all)

base_name-behind :
    (whole xs name : Bytes) → All NoSlash name → base_name whole (xs ++ b'/' ∷ name) ≡ name
unfolding base_name
base_name-behind whole [] name all = base_name-plain name name all
base_name-behind whole (x ∷ xs) name all = elim (Bool-cases (x == b'/')) [
  | inl e ↦ rw e (base_name-behind (xs ++ b'/' ∷ name) xs name all)
  | inr e ↦ rw e (base_name-behind whole xs name all)
]

strip_first_plain : (name : Bytes) → All NoSlash name → strip_first name ≡ name
strip_first_plain [] all = refl
strip_first_plain (c ∷ cs) (h, all) = rw h refl

-- The last part of a directory's path joined with a name that has no slash is that name.
pub base_name-file_name_concat :
    (dir name : Bytes)
    → All NoSlash name
    → base_name (file_name_concat dir name) (file_name_concat dir name) ≡ name
base_name-file_name_concat dir name all =
    let joined =
      file_name_concat_lem dir name
      ∙ ap (λ x. strip_last dir ++ b'/' ∷ x) (strip_first_plain name all) in
    ap (λ x. base_name x x) joined
    ∙ base_name-behind (strip_last dir ++ b'/' ∷ name) (strip_last dir) name all
