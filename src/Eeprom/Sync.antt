-- ===== src/Eeprom/Sync.antt =====
-- The memory and the file of EpoxyEepromEsp (libraries/EpoxyEepromEsp/src/EpoxyEepromEsp.h and
-- EpoxyEepromEsp.cpp) over any sequence of calls.
use mathlib.Core.Path.{subst}
use epoxy_duino.Base.{
  ℕ, ◌+◌, ◌≤◌, ◌<◌, ◌≡◌, ◌⊎◌, inl, inr, refl, sym, ap, ◌∙◌, Bool, true, false, not, ◌&&◌, ◌||◌,
  Bool-cases, ==_iff, ◌==◌, List, [], ◌∷◌, none, some, length, length-set, set, take, arith,
}
use epoxy_duino.Base.Text.{Bytes, same_text}
use epoxy_duino.Eeprom.File.{FileSystem, Keeps, opened}
use epoxy_duino.Eeprom.{
  Target, Eeprom, overwrite, contents, read, write, get, put, begin, save, commit, end,
}
use epoxy_duino.Eeprom.Invariant.{
  IsValid, Sized, on_disk, begin_lem, fill_self, length-overwrite, open_size-Sized,
}

-- The calls of a sketch, but for an assignment through operator[].
pub data Call : Type 0 where
  call_begin : ℕ → Call
  call_write : ℕ → ℕ → Call
  call_put : ℕ → Bytes → Call
  call_commit : Call
  call_end : Call

-- the address that a call writes is one of an EEPROM that is open
abbrev pub InBounds : Eeprom → Call → Type 0
InBounds e (call_begin size) = Unit
InBounds e (call_write address val) = address < length (contents e)
InBounds e (call_put address t) =
    (1 ≤ length (contents e)) × (address + length t ≤ length (contents e))
InBounds e call_commit = Unit
InBounds e call_end = Unit

take-length : (bytes : Bytes) → take (length bytes) bytes ≡ bytes
take-length [] = refl
take-length (c ∷ bytes) = ap (◌∷◌ c) (take-length bytes)

both : {a b : Bool} → (a && b) ≡ true → (a ≡ true) × (b ≡ true)
both {a} {b} h = ground arith

module _ {S : Type 0} (fs : FileSystem S) where
  abbrev pub call : Target → Call → Eeprom × S → Eeprom × S
  call target (call_begin size) (e, s) = ((begin fs target size s e).1, s)
  call target (call_write address val) (e, s) = (write address val e, s)
  call target (call_put address t) (e, s) = (put address t e, s)
  call target call_commit (e, s) = let (_, e', s') = commit fs s e in (e', s')
  call target call_end (e, s) = let (_, e', s') = end fs s e in (e', s')

  abbrev pub calls : Target → List Call → Eeprom × S → Eeprom × S
  calls target [] st = st
  calls target (c ∷ cs) st = calls target cs (call target c st)

  abbrev pub AllInBounds : Target → List Call → Eeprom × S → Type 0
  AllInBounds target [] st = Unit
  AllInBounds target (c ∷ cs) st = InBounds st.0 c × AllInBounds target cs (call target c st)

  -- Unless there is something to save, an open EEPROM holds what the file reads as.
  abbrev pub InSync : Eeprom → S → Type 0
  InSync e s = (e.dirty_ ≡ true) ⊎ ((e.data_ ≡ none) ⊎ (on_disk fs s e.size_ ≡ e.data_))

  abbrev pub Good : Target → Eeprom × S → Type 0
  Good target (e, s) = IsValid target e × InSync e s

  begin-Good :
      (target : Target) (size : ℕ) (e : Eeprom) (s : S)
      → Good target (e, s)
      → Good target (call target (call_begin size) (e, s))
  begin-Good target size e s good = elim (begin_lem fs target size s e) [
    | inl (ok, same) ↦ rw same good
    | inr (inl (ok, same, h, fits)) ↦ rw same good
    | inr (inr (bytes, ok, fits, disk, len, e')) ↦
        rw e' (inr (bytes, refl, len, open_size-Sized target size fits), inr (inr disk))
  ]

  -- a new text of the same length, to be saved
  changed-Good :
      (target : Target) (e : Eeprom) (s : S) (bytes : Bytes)
      → IsValid target e
      → 1 ≤ length (contents e)
      → length bytes ≡ length (contents e)
      → Good target (record { data_ = some bytes; size_ = e.size_; dirty_ = true }, s)
  changed-Good target e s bytes (inl (null, size)) room len =
      absurd (omega (arith, rw null at room))
  changed-Good target e s bytes (inr (old, held, size, sized)) room len =
      (inr (bytes, refl, len ∙ rw held size, sized), inl refl)

  write-Good :
      (target : Target) (address val : ℕ) (e : Eeprom) (s : S)
      → address < length (contents e)
      → Good target (e, s)
      → Good target (write address val e, s)
  unfolding write
  write-Good target address val e s h good = elim (Bool-cases (read address e == val)) [
    | inl same ↦ rw same good
    | inr new ↦ rw new (
        changed-Good target e s (set (contents e) address val) good.0 (omega arith)
          (length-set (contents e) address val))
  ]

  put-Good :
      (target : Target) (address : ℕ) (t : Bytes) (e : Eeprom) (s : S)
      → 1 ≤ length (contents e)
      → Good target (e, s)
      → Good target (put address t e, s)
  unfolding put
  put-Good target address t e s h good =
      elim (Bool-cases (same_text (get address (length t) e) t)) [
        | inl same ↦ rw same good
        | inr new ↦ rw new (
            changed-Good target e s (overwrite address t (contents e)) good.0 h
              (length-overwrite address t (contents e)))
      ]

  save_lem :
      (bytes : Bytes) (s : S)
      → Keeps fs
      → (save fs (length bytes) bytes s).0 ≡ true
      → fs.fopen_rb (save fs (length bytes) bytes s).1 ≡ opened bytes false
  unfolding save
  save_lem bytes s keeps ok = elim (Bool-cases (fs.fopen_wb s).0) [
    | inr shut ↦ ground arith
    | inl is_open ↦
        let all = take-length bytes in
        let (full, shut) = both (rw (is_open, all) at ok) in
        rw (is_open, all)
          (keeps.kept s bytes is_open
            ((==_iff (fs.fwrite (fs.fopen_wb s).1 bytes).0 (length bytes)).0 full) shut)
  ]

  -- a commit of what has changed
  commit_dirty :
      (target : Target) (bytes : Bytes) (s : S)
      → Keeps fs
      → Sized target (length bytes)
      → Good target (
          call target call_commit
            (record { data_ = some bytes; size_ = length bytes; dirty_ = true }, s))
  unfolding commit
  commit_dirty target bytes s keeps sized =
      let size = length bytes in
      elim (Bool-cases (size == 0)) [
        | inl empty ↦ rw empty (inr (bytes, refl, refl, sized), inl refl)
        | inr more ↦ elim (Bool-cases (save fs size bytes s).0) [
          | inl saved ↦
              rw (more, saved)
                (
                  inr (bytes, refl, refl, sized),
                  inr (
                      inr (rw (on_disk, save_lem bytes s keeps saved) (ap some (fill_self bytes)))),
                )
          | inr lost ↦ rw (more, lost) (inr (bytes, refl, refl, sized), inl refl)
        ]
      ]

  end-Good : (target : Target) (e : Eeprom) (s : S) → Good target (call target call_end (e, s))
  unfolding end
  end-Good target e s = (inl (refl, refl), inr (inl refl))

  pub commit-Good :
      (target : Target) (e : Eeprom) (s : S)
      → Keeps fs
      → Good target (e, s)
      → Good target (call target call_commit (e, s))
  unfolding commit
  commit-Good target e s keeps (inl (null, size), sync) =
      subst (Good target) (sym (rw null refl)) (inl (null, size), sync)
  commit-Good target e s keeps (inr (bytes, held, size, sized), sync) = elim (Bool-cases e.dirty_) [
    | inr clean ↦
        let skip : (e.size_ == 0 || not e.dirty_) ≡ true = ground arith in
        let same : call target call_commit (e, s) ≡ (e, s) = rw (held, skip) refl in
        subst (Good target) (sym same) (inr (bytes, held, size, sized), sync)
    | inl dirty ↦
        let same : e ≡ record { data_ = some bytes; size_ = length bytes; dirty_ = true } =
          λ i. record { data_ = held i; size_ = (sym size) i; dirty_ = dirty i } in
        subst (λ (e' : Eeprom). Good target (call target call_commit (e', s))) (sym same)
          (commit_dirty target bytes s keeps (rw size sized))
  ]

  call-Good :
      (target : Target) (c : Call) (e : Eeprom) (s : S)
      → Keeps fs
      → InBounds e c
      → Good target (e, s)
      → Good target (call target c (e, s))
  call-Good target (call_begin size) e s keeps h good = begin-Good target size e s good
  call-Good target (call_write address val) e s keeps h good =
      write-Good target address val e s h good
  call-Good target (call_put address t) e s keeps h good = put-Good target address t e s h.0 good
  call-Good target call_commit e s keeps h good = commit-Good target e s keeps good
  call-Good target call_end e s keeps h good = end-Good target e s

  -- After any sequence of calls of begin(), write(), put(), commit() and end() with addresses in
  -- bounds, and with no assignment through operator[], the EEPROM is closed or holds as many bytes as
  -- its size says, a size that begin() takes; and if it is open with nothing to save, it holds what
  -- the file reads as. This held at the start, and the file keeps what was written to it and
  -- closed without an error.
  pub calls-Good :
      (target : Target) (cs : List Call) (st : Eeprom × S)
      → Keeps fs
      → AllInBounds target cs st
      → Good target st
      → Good target (calls target cs st)
  calls-Good target [] st keeps h good = good
  calls-Good target (c ∷ cs) (e, s) keeps (h, hs) good =
      calls-Good target cs (call target c (e, s)) keeps hs (call-Good target c e s keeps h good)
