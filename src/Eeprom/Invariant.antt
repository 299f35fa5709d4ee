-- ===== src/Eeprom/Invariant.antt =====
-- What the operations of EpoxyEepromEsp keep (libraries/EpoxyEepromEsp/src/EpoxyEepromEsp.h and
-- EpoxyEepromEsp.cpp).
use mathlib.Core.Path.{subst, sym}
use epoxy_duino.Base.{
  ℕ, suc, zero, ◌≡◌, ◌⊎◌, inl, inr, refl, ap, ◌∙◌, Bool, true, false, Bool-cases, ==_iff,
  if◌then◌else◌, ◌==◌, [], ◌∷◌, Option, none, some, length, length-set, set, arith,
}
use epoxy_duino.Base.Text.{Bytes}
use epoxy_duino.Eeprom.File.{FileSystem, Opened, missing, refused, opened}
use epoxy_duino.Eeprom.{
  Target, esp8266, esp32, neither, Eeprom, open_size, bad_size, fill, loaded, overwrite, begin,
}

pub length-fill : (n : ℕ) (content : Bytes) → length (fill n content) ≡ n
unfolding fill
length-fill zero content = refl
length-fill (suc n) [] = ap suc (length-fill n [])
length-fill (suc n) (c ∷ content) = ap suc (length-fill n content)

pub fill_self : (content : Bytes) → fill (length content) content ≡ content
unfolding fill
fill_self [] = refl
fill_self (c ∷ content) = ap (◌∷◌ c) (fill_self content)

pub length-overwrite :
    (address : ℕ) (bs bytes : Bytes) → length (overwrite address bs bytes) ≡ length bytes
unfolding overwrite
length-overwrite address [] bytes = refl
length-overwrite address (b ∷ bs) bytes =
    length-overwrite (suc address) bs (set bytes address b) ∙ length-set bytes address b

-- a size that begin() takes as it is
abbrev pub Sized : Target → ℕ → Type 0
Sized target n = (bad_size target n ≡ false) × (open_size target n ≡ n)

-- Closed, or as many bytes as the size says, which is one that begin() takes.
abbrev pub IsValid : Target → Eeprom → Type 0
IsValid target e =
    ((e.data_ ≡ none) × (e.size_ ≡ 0))
    ⊎ ((bytes : Bytes) × (e.data_ ≡ some bytes) × (length bytes ≡ e.size_) × Sized target e.size_)

pub open_size-Sized :
    (target : Target) (size : ℕ)
    → bad_size target (open_size target size) ≡ false
    → Sized target (open_size target size)
open_size-Sized esp8266 size h = (h, ground arith)
open_size-Sized esp32 size h = (h, refl)
open_size-Sized neither size h = (h, refl)

module _ {S : Type 0} (fs : FileSystem S) where
  -- what n bytes of EEPROM hold when the file is read
  abbrev pub on_disk : S → ℕ → Option Bytes
  on_disk s n = elim (fs.fopen_rb s) [
    | missing ↦ some (fill n [])
    | refused ↦ none
    | opened content failed ↦ if failed then none else some (fill n content)
  ]

  -- What begin() does: it fails and changes nothing, keeps the EEPROM of the same size, or loads the
  -- file.
  abbrev pub Begun : Target → ℕ → S → Eeprom → Bool × Eeprom → Type 0
  Begun target n s e (ok, e') =
      ((ok ≡ false) × (e' ≡ e))
      ⊎ ((ok ≡ true) × (e' ≡ e) × (n ≡ e.size_) × (bad_size target n ≡ false))
      ⊎ ((bytes : Bytes) × (ok ≡ true)
          × (bad_size target n ≡ false)
          × (on_disk s n ≡ some bytes)
          × (length bytes ≡ n)
          × (e' ≡ record { data_ = some bytes; size_ = n; dirty_ = false }))

  read_file :
      (target : Target) (n : ℕ) (s : S) (e : Eeprom) (file : Opened)
      → fs.fopen_rb s ≡ file
      → bad_size target n ≡ false
      → Begun target n s e (elim file [
        | missing ↦ (true, loaded n [])
        | refused ↦ (false, e)
        | opened content failed ↦ if failed then (false, e) else (true, loaded n content)
      ])
  read_file target n s e missing h good =
      inr (inr (fill n [], refl, good, rw (on_disk, h) refl, length-fill n [], refl))
  read_file target n s e refused h good = inl (refl, refl)
  read_file target n s e (opened content true) h good = inl (refl, refl)
  read_file target n s e (opened content false) h good =
      inr (inr (fill n content, refl, good, rw (on_disk, h) refl, length-fill n content, refl))

  -- begin() of every core fails and changes nothing; or it succeeds, and the EEPROM is either the one
  -- there was, of the same size, or the content of the file, with 0xFF behind its end, cut to the size
  -- asked for, which is not 0.
  pub begin_lem :
      (target : Target) (size : ℕ) (s : S) (e : Eeprom)
      → Begun target (open_size target size) s e (begin fs target size s e)
  unfolding begin
  begin_lem target size s e =
      let n = open_size target size in
      elim (Bool-cases (bad_size target n)) [
        | inl bad ↦ rw bad (inl (refl, refl))
        | inr good ↦ elim (Bool-cases (n == e.size_)) [
          | inl same ↦ rw (good, same) (inr (inl (refl, refl, (==_iff n e.size_).0 same, refl)))
          | inr new ↦ elim (Bool-cases (fs.allocates s n)) [
            | inl room ↦
                subst (Begun target n s e) (sym (rw (good, new, room) refl))
                  (read_file target n s e (fs.fopen_rb s) refl good)
            | inr no_room ↦ rw (good, new, no_room) (inl (refl, refl))
          ]
        ]
      ]
