-- ===== src/Update.antt =====
-- The firmware update of the host (libraries/EpoxyUpdate/src/Update.cpp and Update.h). The files of the
-- sink are a parameter.
pub mod Recorded
pub mod Json
mod Tests
use epoxy_duino.Base.{
  ℕ, suc, ◌+◌, ◌-◌, ◌*◌, ◌/◌, ◌%◌, ◌^◌, ◌≡◌, Bool, true, false, not, ◌&&◌, ◌||◌, if◌then◌else◌, ltb,
  ◌==◌, List, [], ◌∷◌, ◌++◌, Option, none, some, length,
}
use epoxy_duino.Base.Text.{Bytes}

-- What the code asks of the files of the sink.
pub record Sink (S : Type 0) : Type 0 where
  -- whether EPOXY_UPDATE_SINK_DIR names a directory
  pub on : Bool
  pub remove_end : S → S
  -- ota_begin.json with the source, escaped, and the size: `none` if it is not opened, else whether
  -- it is closed without an error
  pub put_begin : S → Bytes → ℕ → Option Bool × S
  -- ota_end.json with the result and the count of bytes, likewise
  pub put_end : S → Bool → ℕ → Option Bool × S
  -- ota_image.bin: fopen(), fwrite() with whether all was written, fflush() and fclose()
  pub fopen_image : S → Bool × S
  pub fwrite_image : S → Bytes → Bool × S
  pub fflush_image : S → Bool × S
  pub fclose_image : S → Bool × S

-- The globals of the file, and `running` of the one object.
pub record Update : Type 0 where
  pub image : Bool
  pub written : ℕ
  pub sink_failed : Bool
  pub source : Bytes
  pub running : Bool

-- "%04x" of a byte below 32
abbrev pub hex_digit : ℕ → ℕ
hex_digit n = if ltb 9 n then n - 10 + b'a' else n + b'0'

unfoldable pub json_escape : Bytes → Bytes
json_escape [] = []
json_escape (c ∷ text) =
    let out = json_escape text in
    if c == b'"' || c == b'\\'
    then b'\\' ∷ c ∷ out
    else if ltb c 32
    then b'\\' ∷ b'u' ∷ b'0' ∷ b'0' ∷ hex_digit (c / 16) ∷ hex_digit (c % 16) ∷ out
    else c ∷ out

abbrev pub failing : Bool → Update → Update
failing ok u = if ok then u else record u { sink_failed = true }

unfoldable pub set_source : Option Bytes → Update → Update
set_source none u = record u { source = [] }
set_source (some url) u = record u { source = url }

module _ {S : Type 0} (sink : Sink S) where
  unfoldable pub close_image : Update × S → Update × S
  close_image (u, s) =
      let (ok, s') = sink.fclose_image s in
      if u.image then (record (failing ok u) { image = false }, s') else (u, s)

  -- recordEnd()
  unfoldable pub record_end : Bool → Update × S → Update × S
  unfolding close_image
  record_end ok st =
      let (u, s) = close_image st in
      let (result, s') = sink.put_end s (ok && not u.sink_failed) u.written in
      if sink.on
      then elim result [ none ↦ (u, s') | some closed ↦ (failing closed u, s') ]
      else (u, s)

  -- the records that begin() writes
  unfoldable pub start_records : ℕ → Update × S → Update × S
  unfolding json_escape
  start_records size (u, s) =
      let (result, s₁) = sink.put_begin (sink.remove_end s) (json_escape u.source) size in
      let ok = elim result as (λ r. Bool) [ none ↦ false | some closed ↦ closed ] in
      let (is_open, s₂) = sink.fopen_image s₁ in
      (record (failing is_open (failing ok u)) { image = is_open }, s₂)

  unfoldable pub begin_update : ℕ → Update × S → Update × S
  unfolding close_image start_records
  begin_update size st =
      let (u, s) = close_image st in
      let u₀ : Update = record u { written = 0; sink_failed = false; running = true } in
      let (u₁, s₁) = if sink.on then start_records size (u₀, s) else (u₀, s) in
      (record u₁ { source = [] }, s₁)

  unfoldable pub write_update : Bytes → Update × S → Update × S
  write_update bytes (u, s) =
      let (full, s₁) = sink.fwrite_image s bytes in
      let (flushed, s₂) = sink.fflush_image s₁ in
      let count = (u.written + length bytes) % 2 ^ 64 in
      if u.image && not (length bytes == 0)
      then (record (failing flushed (failing full u)) { written = count }, s₂)
      else (record u { written = count }, s)

  unfoldable pub write_all : List Bytes → Update × S → Update × S
  unfolding write_update
  write_all [] st = st
  write_all (bytes ∷ chunks) st = write_all chunks (write_update bytes st)

  unfoldable pub end_update : Update × S → Update × S
  unfolding record_end
  end_update (u, s) = record_end true (record u { running = false }, s)

  unfoldable pub abort_update : Update × S → Update × S
  unfolding record_end
  abort_update (u, s) = record_end false (record u { running = false }, s)
