-- ===== src/Eeprom.antt =====
-- EpoxyEepromEsp (libraries/EpoxyEepromEsp/src/EpoxyEepromEsp.h and EpoxyEepromEsp.cpp): an EEPROM
-- held in memory and saved to a file. The file and the allocator are a parameter. An address is in
-- bounds; the code does not check it.
pub mod File
pub mod Invariant
pub mod Sync
pub mod Reopen
mod Tests
use epoxy_duino.Base.{
  ℕ, suc, zero, ◌+◌, ◌*◌, ◌/◌, ◌≡◌, Bool, true, false, not, ◌&&◌, ◌||◌, if◌then◌else◌, ltb, ◌==◌,
  List, [], ◌∷◌, Option, none, some, length, get_or, set, take, drop,
}
use epoxy_duino.Base.Text.{Bytes, same_text}
use File.{FileSystem, Opened, missing, refused, opened}

-- The core chosen by EPOXY_CORE_ESP8266 or EPOXY_CORE_ESP32.
pub data Target : Type 0 where
  esp8266 esp32 neither : Target

-- `data_` is `none` where the pointer is null.
pub record Eeprom : Type 0 where
  pub data_ : Option Bytes
  pub size_ : ℕ
  pub dirty_ : Bool

abbrev pub closed : Eeprom
closed = record { data_ = none; size_ = 0; dirty_ = false }

-- The size that open() goes by: at most 4096 and a multiple of 4 on the ESP8266.
abbrev pub open_size : Target → ℕ → ℕ
open_size esp8266 size = ((if ltb 4096 size then 4096 else size) + 3) / 4 * 4
open_size esp32 size = size
open_size neither size = size

abbrev pub bad_size : Target → ℕ → Bool
bad_size esp8266 size = size == 0
bad_size esp32 size = size == 0 || ltb 65535 size
bad_size neither size = size == 0

-- memset() with 0xFF, then fread() of as much as fits
unfoldable pub fill : ℕ → Bytes → Bytes
fill zero content = []
fill (suc n) [] = 255 ∷ fill n []
fill (suc n) (c ∷ content) = c ∷ fill n content

abbrev pub loaded : ℕ → Bytes → Eeprom
loaded size content = record { data_ = some (fill size content); size_ = size; dirty_ = false }

-- memcpy() of a text to an address
unfoldable pub overwrite : ℕ → Bytes → Bytes → Bytes
overwrite address [] bytes = bytes
overwrite address (b ∷ bs) bytes = overwrite (suc address) bs (set bytes address b)

abbrev pub contents : Eeprom → Bytes
contents e = elim e.data_ [ none ↦ [] | some bytes ↦ bytes ]

unfoldable pub read : ℕ → Eeprom → ℕ
read address e = get_or (contents e) address 0

unfoldable pub write : ℕ → ℕ → Eeprom → Eeprom
unfolding read
write address val e =
    if read address e == val
    then e
    else record { data_ = some (set (contents e) address val); size_ = e.size_; dirty_ = true }

-- the assignment e[address] = val, through the reference that operator[] answers
unfoldable pub assign : ℕ → ℕ → Eeprom → Eeprom
assign address val e = record e { data_ = some (set (contents e) address val) }

unfoldable pub get : ℕ → ℕ → Eeprom → Bytes
get address size e = take size (drop address (contents e))

unfoldable pub put : ℕ → Bytes → Eeprom → Eeprom
unfolding get
put address t e =
    if same_text (get address (length t) e) t
    then e
    else record { data_ = some (overwrite address t (contents e)); size_ = e.size_; dirty_ = true }

module _ {S : Type 0} (fs : FileSystem S) where
  -- open(), which begin() calls
  unfoldable pub begin : Target → ℕ → S → Eeprom → Bool × Eeprom
  begin target size s e =
      let n = open_size target size in
      if bad_size target n
      then (false, e)
      else if n == e.size_
      then (true, e)
      else if not (fs.allocates s n)
      then (false, e)
      else elim (fs.fopen_rb s) [
        | missing ↦ (true, loaded n [])
        | refused ↦ (false, e)
        | opened content failed ↦ if failed then (false, e) else (true, loaded n content)
      ]

  -- fopen(), fwrite() and fclose() on the data path: whether all succeeded
  unfoldable pub save : ℕ → Bytes → S → Bool × S
  save size bytes s =
      let (is_open, s₁) = fs.fopen_wb s in
      let (count, s₂) = fs.fwrite s₁ (take size bytes) in
      let (is_closed, s₃) = fs.fclose s₂ in
      if is_open then (count == size && is_closed, s₃) else (false, s₁)

  unfoldable pub commit : S → Eeprom → Bool × Eeprom × S
  unfolding save
  commit s e = elim e.data_ [
    | none ↦ (true, e, s)
    | some bytes ↦
        let (saved, s') = save e.size_ bytes s in
        if e.size_ == 0 || not e.dirty_
        then (true, e, s)
        else if saved
        then (true, record e { dirty_ = false }, s')
        else (false, e, s')
  ]

  -- end() of the ESP8266 answers what commit() did; the other cores' answers nothing.
  unfoldable pub end : S → Eeprom → Bool × Eeprom × S
  unfolding commit
  end s e = let (saved, _, s') = commit s e in (saved, closed, s')
