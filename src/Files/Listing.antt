-- ===== src/Files/Listing.antt =====
-- The listing of a directory by EpoxyDirImpl::next() (libraries/EpoxyFS/src/EpoxyFS.h).
use epoxy_duino.Base.{
  ℕ, zero, suc, ◌≤◌, ◌≡◌, refl, ap, ◌∙◌, true, false, if◌then◌else◌, List, [], ◌∷◌, Option, none,
  some, length, Bool-cases, inl, inr,
}
use native.Mathlib.Omega.{arith}
use epoxy_duino.Base.Text.{Bytes}
use epoxy_duino.Files.{next_entry, is_dots}

abbrev with_name : Bytes → Option (List Bytes) → Option (List Bytes)
with_name name none = none
with_name name (some seen) = some (name ∷ seen)

-- One round of a loop over next(), where `rest` are the others.
abbrev list_from :
    (List Bytes → Option (List Bytes)) → Option (Bytes × List Bytes) → Option (List Bytes)
list_from rest none = some []
list_from rest (some (name, left)) = with_name name (rest left)

-- What a loop over next() sees, if the fuel is enough.
unfoldable pub listing : ℕ → List Bytes → Option (List Bytes)
unfolding next_entry
listing zero names = list_from (λ left. none) (next_entry names)
listing (suc fuel) names = list_from (listing fuel) (next_entry names)

-- the names without "." and ".."
abbrev pub proper : List Bytes → List Bytes
proper [] = []
proper (name ∷ names) = if is_dots name then proper names else name ∷ proper names

listing_by_entry :
    (fuel : ℕ) (names others : List Bytes)
    → next_entry names ≡ next_entry others
    → listing fuel names ≡ listing fuel others
unfolding listing
listing_by_entry zero names others h = ap (list_from (λ left. none)) h
listing_by_entry (suc fuel) names others h = ap (list_from (listing fuel)) h

next_entry-skips :
    (name : Bytes) (names : List Bytes)
    → is_dots name ≡ true
    → next_entry (name ∷ names) ≡ next_entry names
unfolding next_entry
next_entry-skips name names e = rw e refl

next_entry-takes :
    (name : Bytes) (names : List Bytes)
    → is_dots name ≡ false
    → next_entry (name ∷ names) ≡ some (name, names)
unfolding next_entry
next_entry-takes name names e = rw e refl

-- A loop over next() sees every name of the directory but "." and "..", in the order of readdir(), and
-- ends, for any fuel that is at least the number of names.
pub listing-proper :
    (names : List Bytes) (fuel : ℕ) → length names ≤ fuel → listing fuel names ≡ some (proper names)
unfolding listing next_entry
listing-proper [] zero h = refl
listing-proper [] (suc fuel) h = refl
listing-proper (name ∷ names) zero h = absurd (omega arith)
listing-proper (name ∷ names) (suc fuel) h = elim (Bool-cases (is_dots name)) [
  | inl e ↦
      listing_by_entry (suc fuel) (name ∷ names) names (next_entry-skips name names e)
      ∙ rw e (listing-proper names (suc fuel) (omega arith))
  | inr e ↦
      ap (list_from (listing fuel)) (next_entry-takes name names e)
      ∙ ap (with_name name) (listing-proper names fuel (omega arith))
      ∙ rw e refl
]
