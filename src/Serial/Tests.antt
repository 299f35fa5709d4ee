-- ===== src/Serial/Tests.antt =====
-- A serial port on a terminal with a few bytes (cores/epoxy/PtySerial.cpp and StdioSerial.cpp).
use epoxy_duino.Base.{ℕ, ◌≡◌, ap, refl, Bool, true, false, [], ◌∷◌, Option, none, some}
use epoxy_duino.Base.Text.{Bytes, codes}
use epoxy_duino.Serial.{Terminal, fill, peek_stdio, read_stdio, speed_among, rates}
use epoxy_duino.Serial.Queued.{
  reads, peeks, asks, Delivers, answers, serve_all, serve_all-answers, port, answer,
}

abbrev has_byte : Bytes → Bool
has_byte [] = false
has_byte (c ∷ cs) = true

abbrev first_byte : Bytes → Option ℕ × Bytes
first_byte [] = (none, [])
first_byte (c ∷ cs) = (some c, cs)

abbrev tape : Terminal Bytes
tape = record {
  open_port = λ path s. (some 3, s);
  configure = λ fd speed s. (true, s);
  close_port = λ fd s. s;
  read_byte = λ fd s. first_byte s;
  write_byte = λ fd c s. (true, s);
  is_readable = λ fd s. has_byte s;
}

tape-Delivers : Delivers tape 3 (λ s. s)
tape-Delivers = record {
  read_none = λ s e. ap (λ x. (first_byte x).0) e;
  left_none = λ s e. ap (λ x. (first_byte x).1) e;
  read_some = λ s c cs e. ap (λ x. (first_byte x).0) e;
  left_some = λ s c cs e. ap (λ x. (first_byte x).1) e;
  select_none = λ s e. ap has_byte e;
  select_some = λ s c cs e. ap has_byte e;
}

serve_all-answers_example :
    serve_all tape
      (asks ∷ peeks ∷ reads ∷ reads ∷ reads ∷ [])
      (port 3 (codes "/tmp/tty") none)
      (codes "ab")
    ≡ some 1 ∷ some b'a' ∷ some b'a' ∷ some b'b' ∷ none ∷ []
unfolding answers answer
serve_all-answers_example =
    serve_all-answers tape 3 (λ s. s) tape-Delivers (asks ∷ peeks ∷ reads ∷ reads ∷ reads ∷ [])
      (codes "/tmp/tty") none (codes "ab")

-- The global Serial starts with 0 in its buffer, and read() takes it for a byte.
zero_before_begin :
    (read_stdio tape (record { output_fd = 1; stdio_bufch = some 0 }) (codes "ab")).0 ≡ some 0
unfolding read_stdio peek_stdio fill
zero_before_begin = refl

odd_rate : speed_among 12345 rates ≡ 115200
unfolding speed_among
odd_rate = refl
