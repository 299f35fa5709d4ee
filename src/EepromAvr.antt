-- ===== src/EepromAvr.antt =====
-- EpoxyEepromAvr (libraries/EpoxyEepromAvr/src/EpoxyEepromAvr.h and EpoxyEepromAvr.cpp): the EEPROM
-- of the AVR as references and pointers to cells of a file. An index is an int, kept as its bit
-- pattern. The file is the parameter Cells.
pub mod Laws
mod Tests
use epoxy_duino.Base.{
  ℕ, suc, zero, ◌+◌, ◌-◌, ◌%◌, ◌^◌, ◌≡◌, if◌then◌else◌, ◌==◌, List, [], ◌∷◌, Option, none, some,
}
use epoxy_duino.Base.Text.{Bytes}

-- pread() and pwrite() of one byte; a read that gives no byte is `none`.
pub record Cells (S : Type 0) : Type 0 where
  pub pread : S → ℕ → Option ℕ
  pub pwrite : S → ℕ → ℕ → S

-- A byte that is written is read there, and every other cell reads as before.
pub record Stores {S : Type 0} (cells : Cells S) : Type 0 where
  pub stored :
      (s : S) (i j v : ℕ)
      → cells.pread (cells.pwrite s i v) j ≡ (if i == j then some v else cells.pread s j)

pub record EeRef : Type 0 where
  pub index : ℕ

pub record EePtr : Type 0 where
  pub at : ℕ

-- operator+=() and operator-=() of EERef move the reference.
unfoldable pub add_assign : ℕ → EeRef → EeRef
add_assign n r = record { index = (r.index + n) % 2 ^ 32 }

unfoldable pub sub_assign : ℕ → EeRef → EeRef
sub_assign n r = record { index = (r.index + 2 ^ 32 - n) % 2 ^ 32 }

-- operator++() and operator--() of EEPtr
unfoldable pub increment : EePtr → EePtr
increment p = record { at = (p.at + 1) % 2 ^ 32 }

unfoldable pub decrement : EePtr → EePtr
decrement p = record { at = (p.at + 2 ^ 32 - 1) % 2 ^ 32 }

-- operator*() of EEPtr
abbrev pub pointed : EePtr → EeRef
pointed p = record { index = p.at }

abbrev pub epoxy_eeprom_size : ℕ
epoxy_eeprom_size = 1024

-- begin() and end() of EpoxyEepromAvr
abbrev pub first_cell : EePtr
first_cell = record { at = 0 }

abbrev pub past_cells : EePtr
past_cells = record { at = epoxy_eeprom_size }

module _ {S : Type 0} (cells : Cells S) where
  -- operator*() of EERef: 0 where nothing is read
  unfoldable pub deref : EeRef → S → ℕ
  deref r s = elim (cells.pread s r.index) [ none ↦ 0 | some c ↦ c ]

  unfoldable pub assign_cell : EeRef → ℕ → S → S
  assign_cell r val s = cells.pwrite s r.index val

  unfoldable pub update : EeRef → ℕ → S → S
  unfolding deref assign_cell
  update r val s = if val == deref r s then s else assign_cell r val s

  -- read(), write() and update() of EpoxyEepromAvr
  unfoldable pub read_cell : ℕ → S → ℕ
  unfolding deref
  read_cell idx s = deref (record { index = idx }) s

  unfoldable pub write_cell : ℕ → ℕ → S → S
  unfolding assign_cell
  write_cell idx val s = assign_cell (record { index = idx }) val s

  unfoldable pub update_cell : ℕ → ℕ → S → S
  unfolding update
  update_cell idx val s = update (record { index = idx }) val s

  -- the loops of get() and put(), from a pointer on
  unfoldable pub get_from : ℕ → EePtr → S → Bytes
  unfolding deref increment
  get_from zero e s = []
  get_from (suc count) e s = deref (pointed e) s ∷ get_from count (increment e) s

  unfoldable pub put_from : Bytes → EePtr → S → S
  unfolding update increment
  put_from [] e s = s
  put_from (b ∷ bs) e s = put_from bs (increment e) (update (pointed e) b s)

  unfoldable pub get_object : ℕ → ℕ → S → Bytes
  unfolding get_from
  get_object idx size s = get_from size (record { at = idx }) s

  unfoldable pub put_object : ℕ → Bytes → S → S
  unfolding put_from
  put_object idx t s = put_from t (record { at = idx }) s
