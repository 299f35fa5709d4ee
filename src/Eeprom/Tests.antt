-- ===== src/Eeprom/Tests.antt =====
-- Runs of EpoxyEepromEsp (libraries/EpoxyEepromEsp/src/EpoxyEepromEsp.h and EpoxyEepromEsp.cpp) on a
-- file that never fails.
use epoxy_duino.Base.{◌≡◌, inl, inr, refl, true, false, [], ◌∷◌, Option, none, some, length, arith}
use epoxy_duino.Base.Text.{Bytes}
use epoxy_duino.Eeprom.File.{FileSystem, Keeps, missing, opened}
use epoxy_duino.Eeprom.{
  esp8266, esp32, Eeprom, closed, fill, open_size, assign, begin, save, commit, end,
}
use epoxy_duino.Eeprom.Invariant.{Begun, begin_lem}
use epoxy_duino.Eeprom.Sync.{call_write, call_commit, call_end, calls, calls-Good, Good}
use epoxy_duino.Eeprom.Reopen.{begin-commit}

abbrev disk : FileSystem (Option Bytes)
disk = record {
  allocates = λ s n. true;
  fopen_rb = λ s. elim s [ none ↦ missing | some content ↦ opened content false ];
  fopen_wb = λ s. (true, some []);
  fwrite = λ s bytes. (length bytes, some bytes);
  fclose = λ s. (true, s);
}

disk-Keeps : Keeps disk
disk-Keeps = record { kept = λ s bytes h₁ h₂ h₃. refl }

abbrev small : Eeprom
small = record { data_ = some (7 ∷ 255 ∷ 255 ∷ 255 ∷ []); size_ = 4; dirty_ = true }

-- The size is rounded up to 4 bytes on the ESP8266.
fresh :
    begin disk esp8266 3 none closed
    ≡ (true, record { data_ = some (255 ∷ 255 ∷ 255 ∷ 255 ∷ []); size_ = 4; dirty_ = false })
unfolding begin fill
fresh = refl

too_large : (begin disk esp32 65536 none closed).0 ≡ false
unfolding begin
too_large = refl

-- An assignment through operator[] is not saved by commit().
assigned :
    (commit disk
      (some (1 ∷ []))
      (assign 0 9 (record { data_ = some (1 ∷ []); size_ = 1; dirty_ = false }))).2
    ≡ some (1 ∷ [])
unfolding commit assign
assigned = refl

begin_lem_example :
    Begun disk esp8266
      (open_size esp8266 6)
      (some (1 ∷ 2 ∷ []))
      small
      (begin disk esp8266 6 (some (1 ∷ 2 ∷ [])) small)
begin_lem_example = begin_lem disk esp8266 6 (some (1 ∷ 2 ∷ [])) small

abbrev pair : Bytes
pair = 5 ∷ 6 ∷ []

small-Good : Good disk esp8266 (small, none)
small-Good = (inr (7 ∷ 255 ∷ 255 ∷ 255 ∷ [], refl, refl, (refl, refl)), inl refl)

begin-commit_example :
    begin disk esp8266 4 (end disk none small).2 (end disk none small).1
    ≡ (true, record { data_ = some (7 ∷ 255 ∷ 255 ∷ 255 ∷ []); size_ = 4; dirty_ = false })
unfolding commit save
begin-commit_example =
    begin-commit disk esp8266 small none (7 ∷ 255 ∷ 255 ∷ 255 ∷ []) disk-Keeps small-Good refl refl
      refl

calls-Good_example :
    Good disk esp8266 (
      calls disk esp8266 (call_commit ∷ call_write 1 8 ∷ call_commit ∷ call_end ∷ []) (small, none))
unfolding commit save
calls-Good_example =
    calls-Good disk esp8266 (call_commit ∷ call_write 1 8 ∷ call_commit ∷ call_end ∷ [])
      (small, none) disk-Keeps (tt, (omega arith, (tt, (tt, tt)))) small-Good
