-- ===== src/Eeprom/Reopen.antt =====
-- What is found again in a saved EEPROM (libraries/EpoxyEepromEsp/src/EpoxyEepromEsp.h and
-- EpoxyEepromEsp.cpp), and what a read finds.
use epoxy_duino.Base.{
  ℕ, suc, zero, ◌+◌, ◌≤◌, ◌<◌, ◌≡◌, inl, inr, refl, sym, ap, ◌∙◌, Bool, true, false, Bool-cases,
  if◌then◌else◌, ◌==◌, [], ◌∷◌, Option, none, some, length, get_or-set_self, get_or-set_ne, set,
  take, drop, arith,
}
use epoxy_duino.Base.Text.{Bytes, same_text, same_text_eq}
use epoxy_duino.Eeprom.File.{FileSystem, Keeps, Opened, missing, refused, opened}
use epoxy_duino.Eeprom.{
  Target, esp8266, esp32, neither, Eeprom, closed, open_size, bad_size, fill, loaded, overwrite,
  contents, read, write, get, put, begin, save, commit, end,
}
use epoxy_duino.Eeprom.Invariant.{on_disk}
use epoxy_duino.Eeprom.Sync.{Good, commit-Good}

-- A byte written to an address of the EEPROM is read there, and any other address reads as before.
pub read-write :
    (e : Eeprom) (a b val : ℕ)
    → b < length (contents e)
    → read a (write b val e) ≡ (if a == b then val else read a e)
unfolding read write
read-write e a b val h =
    ground (arith, get_or-set_self (contents e) b val 0 h, get_or-set_ne (contents e) b a val 0)

get-overwrite_head :
    (x : ℕ) (address : ℕ) (t bytes : Bytes)
    → overwrite (suc address) t (x ∷ bytes) ≡ x ∷ overwrite address t bytes
unfolding overwrite
get-overwrite_head x address [] bytes = refl
get-overwrite_head x address (b ∷ t) bytes =
    get-overwrite_head x (suc address) t (set bytes address b)

get_overwritten :
    (address : ℕ) (t bytes : Bytes)
    → address + length t ≤ length bytes
    → take (length t) (drop address (overwrite address t bytes)) ≡ t
unfolding overwrite
get_overwritten zero [] bytes h = refl
get_overwritten zero (b ∷ t) [] h = absurd (omega arith)
get_overwritten zero (b ∷ t) (x ∷ bytes) h =
    rw (get-overwrite_head b 0 t bytes) (ap (◌∷◌ b) (get_overwritten zero t bytes (omega arith)))
get_overwritten (suc address) t [] h = absurd (omega arith)
get_overwritten (suc address) t (x ∷ bytes) h =
    rw (get-overwrite_head x address t bytes) (get_overwritten address t bytes (omega arith))

-- get() at an address where put() stored an object within the EEPROM finds the object.
get-put :
    (e : Eeprom) (address : ℕ) (t : Bytes)
    → address + length t ≤ length (contents e)
    → get address (length t) (put address t e) ≡ t
unfolding get put
get-put e address t h = elim (Bool-cases (same_text (get address (length t) e) t)) [
  | inl same ↦ rw same (same_text_eq (get address (length t) e) t same)
  | inr new ↦ rw new (get_overwritten address t (contents e) h)
]

positive : (target : Target) (n : ℕ) → bad_size target n ≡ false → 1 ≤ n
positive esp8266 n h = ground arith
positive esp32 n h = ground arith
positive neither n h = ground arith

module _ {S : Type 0} (fs : FileSystem S) where
  from_disk :
      (s : S) (n : ℕ) (bytes : Bytes) (e : Eeprom) (file : Opened)
      → elim file as (λ f. Option Bytes) [
        | missing ↦ some (fill n [])
        | refused ↦ none
        | opened content failed ↦ if failed then none else some (fill n content)
      ]
        ≡ some bytes
      → elim file as (λ f. Bool × Eeprom) [
        | missing ↦ (true, loaded n [])
        | refused ↦ (false, e)
        | opened content failed ↦ if failed then (false, e) else (true, loaded n content)
      ]
        ≡ (true, record { data_ = some bytes; size_ = n; dirty_ = false })
  from_disk s n bytes e missing h =
      ap (λ (d : Option Bytes). (true, record { data_ = d; size_ = n; dirty_ = false })) h
  from_disk s n bytes e refused h = cc
  from_disk s n bytes e (opened content true) h = cc
  from_disk s n bytes e (opened content false) h =
      ap (λ (d : Option Bytes). (true, record { data_ = d; size_ = n; dirty_ = false })) h

  begin-closed :
      (target : Target) (size : ℕ) (s : S) (bytes : Bytes)
      → bad_size target (open_size target size) ≡ false
      → fs.allocates s (open_size target size) ≡ true
      → on_disk fs s (open_size target size) ≡ some bytes
      → begin fs target size s closed
        ≡ (true, record { data_ = some bytes; size_ = open_size target size; dirty_ = false })
  unfolding begin
  begin-closed target size s bytes good room disk =
      let n = open_size target size in
      let some_size : (n == 0) ≡ false = ground (arith, positive target n good) in
      rw (good, some_size, room) (from_disk s n bytes closed (fs.fopen_rb s) disk)

  committed_as :
      (n : ℕ) (dirty : Bool) (s : S) (bytes : Bytes)
      → (n == 0) ≡ false
      → (commit fs s (record { data_ = some bytes; size_ = n; dirty_ = dirty })).0 ≡ true
      → (commit fs s (record { data_ = some bytes; size_ = n; dirty_ = dirty })).1
        ≡ record { data_ = some bytes; size_ = n; dirty_ = false }
  unfolding commit
  committed_as n false s bytes room ok = rw room refl
  committed_as n true s bytes room ok = elim (Bool-cases (save fs n bytes s).0) [
    | inl saved ↦ rw (room, saved) refl
    | inr lost ↦ absurd (ground (arith, rw (room, lost) at ok))
  ]

  committed :
      (e : Eeprom) (s : S) (bytes : Bytes)
      → e.data_ ≡ some bytes
      → 1 ≤ e.size_
      → (commit fs s e).0 ≡ true
      → (commit fs s e).1 ≡ record { data_ = some bytes; size_ = e.size_; dirty_ = false }
  committed e s bytes held room ok =
      let same : e ≡ record { data_ = some bytes; size_ = e.size_; dirty_ = e.dirty_ } =
        λ i. record { data_ = held i; size_ = e.size_; dirty_ = e.dirty_ } in
      ap (λ (e' : Eeprom). (commit fs s e').1) same
      ∙ committed_as e.size_ e.dirty_ s bytes (ground arith)
          (ap (λ (e' : Eeprom). (commit fs s e').0) (sym same) ∙ ok)

  -- If commit() answers true, end() and begin() of the same size bring back the same bytes, in an
  -- EEPROM with nothing to save. The EEPROM was valid, open and in sync with its file unless changed,
  -- the file keeps what was written to it and closed without an error, and memory is there.
  pub begin-commit :
      (target : Target) (e : Eeprom) (s : S) (bytes : Bytes)
      → Keeps fs
      → Good fs target (e, s)
      → e.data_ ≡ some bytes
      → (commit fs s e).0 ≡ true
      → fs.allocates (end fs s e).2 e.size_ ≡ true
      → begin fs target e.size_ (end fs s e).2 (end fs s e).1
        ≡ (true, record { data_ = some bytes; size_ = e.size_; dirty_ = false })
  unfolding end
  begin-commit target e s bytes keeps (inl (null, size), sync) held ok room = cc
  begin-commit target e s bytes keeps (inr (bytes', held', size, sized), sync) held ok room =
      let after = committed e s bytes held (positive target e.size_ sized.0) ok in
      let good = commit-Good fs target e s keeps (inr (bytes', held', size, sized), sync) in
      let disk : on_disk fs (commit fs s e).2 e.size_ ≡ some bytes = elim (rw after at good.1) [
        | inl dirty ↦ cc
        | inr (inl null) ↦ cc
        | inr (inr disk) ↦ disk
      ] in
      rw sized.1 at (
        begin-closed target e.size_ (commit fs s e).2 bytes (rw sized.1 sized.0) (rw sized.1 room)
          (rw sized.1 disk))
