-- ===== src/Eeprom/File.antt =====
-- What EpoxyEepromEsp (libraries/EpoxyEepromEsp/src/EpoxyEepromEsp.cpp) asks of the file at its data
-- path and of the allocator.
use epoxy_duino.Base.{ℕ, ◌≡◌, Bool, true, false, length}
use epoxy_duino.Base.Text.{Bytes}

-- fopen(path, "rb") and reading all of it: no such file, another error, or the content with whether
-- a read failed.
pub data Opened : Type 0 where
  missing : Opened
  refused : Opened
  opened : Bytes → Bool → Opened

pub record FileSystem (S : Type 0) : Type 0 where
  -- whether new (std::nothrow) succeeds
  pub allocates : S → ℕ → Bool
  pub fopen_rb : S → Opened
  -- fopen(path, "wb"), fwrite() and fclose()
  pub fopen_wb : S → Bool × S
  pub fwrite : S → Bytes → ℕ × S
  pub fclose : S → Bool × S

-- A file that was opened, written in full and closed without an error holds what was written.
pub record Keeps {S : Type 0} (fs : FileSystem S) : Type 0 where
  pub kept :
      (s : S) (bytes : Bytes)
      → (fs.fopen_wb s).0 ≡ true
      → (fs.fwrite (fs.fopen_wb s).1 bytes).0 ≡ length bytes
      → (fs.fclose (fs.fwrite (fs.fopen_wb s).1 bytes).1).0 ≡ true
      → fs.fopen_rb (fs.fclose (fs.fwrite (fs.fopen_wb s).1 bytes).1).1 ≡ opened bytes false
