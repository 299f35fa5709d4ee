-- ===== src/Serial.antt =====
-- The serial ports: cores/epoxy/StdioSerial.h, StdioSerial.cpp and PtySerial.cpp. The calls of the host
-- are the parameter Terminal, on a state S; a file descriptor is a number. -1 in `bufch` and as an
-- answer is `none`.
pub mod Queued
mod Tests
use epoxy_duino.Base.{ℕ, Bool, true, false, if◌then◌else◌, ◌==◌, List, [], ◌∷◌, Option, none, some}
use epoxy_duino.Base.Text.{Bytes}

pub record Terminal (S : Type 0) : Type 0 where
  pub open_port : Bytes → S → Option ℕ × S
  pub configure : ℕ → ℕ → S → Bool × S
  pub close_port : ℕ → S → S
  pub read_byte : ℕ → S → Option ℕ × S
  pub write_byte : ℕ → ℕ → S → Bool × S
  pub is_readable : ℕ → S → Bool

pub record StdioSerial : Type 0 where
  pub output_fd : ℕ
  pub stdio_bufch : Option ℕ

pub record PtySerial : Type 0 where
  pub port_path : Bytes
  pub port_fd : Option ℕ
  pub bufch : Option ℕ

-- baudToSpeed() on a host with all the rates; a speed is named by its rate.
abbrev pub rates : List ℕ
rates =
    9600 ∷ 19200 ∷ 38400 ∷ 57600 ∷ 115200 ∷ 230400 ∷ 460800 ∷ 500000 ∷ 576000 ∷ 921600 ∷ 1000000
    ∷ 1152000 ∷ 1500000 ∷ 2000000 ∷ 2500000 ∷ 3000000 ∷ 3500000 ∷ 4000000 ∷ []

unfoldable pub speed_among : ℕ → List ℕ → ℕ
speed_among baud [] = 115200
speed_among baud (rate ∷ others) =
    let other = speed_among baud others in if baud == rate then rate else other

abbrev pub stdin_fileno : ℕ
stdin_fileno = 0

abbrev pub new_pty : Bytes → PtySerial
new_pty path = record { port_path = path; port_fd = none; bufch = none }

unfoldable pub set_port_path : Bytes → PtySerial → PtySerial
set_port_path path p = elim p.port_fd [ none ↦ record p { port_path = path } | some fd ↦ p ]

unfoldable pub begin_stdio : StdioSerial → StdioSerial
begin_stdio p = record p { stdio_bufch = none }

module _ {S : Type 0} (terminal : Terminal S) where
  -- What both peek() do with their buffer.
  unfoldable pub fill : ℕ → Option ℕ → S → Option ℕ × S
  fill fd none s = terminal.read_byte fd s
  fill fd (some c) s = (some c, s)

  unfoldable pub peek_stdio : StdioSerial → S → Option ℕ × StdioSerial × S
  unfolding fill
  peek_stdio p s =
      let (c, s') = fill stdin_fileno p.stdio_bufch s in (c, record p { stdio_bufch = c }, s')

  unfoldable pub read_stdio : StdioSerial → S → Option ℕ × StdioSerial × S
  unfolding peek_stdio
  read_stdio p s = let (c, p', s') = peek_stdio p s in (c, record p' { stdio_bufch = none }, s')

  unfoldable pub available_stdio : StdioSerial → S → ℕ × StdioSerial × S
  unfolding peek_stdio
  available_stdio p s =
      let (c, p', s') = peek_stdio p s in (elim c [ none ↦ 0 | some b ↦ 1 ], p', s')

  unfoldable pub write_stdio : ℕ → StdioSerial → S → ℕ × S
  write_stdio c p s =
      let (done, s') = terminal.write_byte p.output_fd c s in (if done then 1 else 0, s')

  unfoldable pub begin_pty : ℕ → PtySerial → S → Bool × PtySerial × S
  unfolding speed_among
  begin_pty baud p s =
      let (opened, s₁) = terminal.open_port p.port_path s in
      elim p.port_fd [
        | some fd ↦ (true, p, s)
        | none ↦ elim opened [
          | none ↦ (false, p, s₁)
          | some fd ↦
              let (configured, s₂) = terminal.configure fd (speed_among baud rates) s₁ in
              if configured
              then (true, record p { port_fd = some fd; bufch = none }, s₂)
              else (false, p, terminal.close_port fd s₂)
        ]
      ]

  unfoldable pub end_pty : PtySerial → S → PtySerial × S
  end_pty p s = elim p.port_fd [
    | none ↦ (p, s)
    | some fd ↦ (record p { port_fd = none; bufch = none }, terminal.close_port fd s)
  ]

  unfoldable pub write_pty : ℕ → PtySerial → S → ℕ × S
  write_pty c p s = elim p.port_fd [
    | none ↦ (0, s)
    | some fd ↦ let (done, s') = terminal.write_byte fd c s in (if done then 1 else 0, s')
  ]

  unfoldable pub peek_pty : PtySerial → S → Option ℕ × PtySerial × S
  unfolding fill
  peek_pty p s = elim p.port_fd [
    | none ↦ (none, p, s)
    | some fd ↦ let (c, s') = fill fd p.bufch s in (c, record p { bufch = c }, s')
  ]

  unfoldable pub read_pty : PtySerial → S → Option ℕ × PtySerial × S
  unfolding peek_pty
  read_pty p s = let (c, p', s') = peek_pty p s in (c, record p' { bufch = none }, s')

  unfoldable pub available_pty : PtySerial → S → ℕ
  available_pty p s = elim p.port_fd [
    | none ↦ 0
    | some fd ↦ elim p.bufch [ some c ↦ 1 | none ↦ if terminal.is_readable fd s then 1 else 0 ]
  ]
