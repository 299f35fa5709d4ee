-- ===== src/Serial/Queued.antt =====
-- A serial port as a queue of bytes (cores/epoxy/PtySerial.cpp).
use epoxy_duino.Base.{ℕ, ◌≡◌, refl, ap, true, false, List, [], ◌∷◌, Option, none, some}
use epoxy_duino.Serial.{Terminal, PtySerial, fill, peek_pty, read_pty, available_pty}

-- What a program asks a port.
pub data Request : Type 0 where
  reads peeks asks : Request

-- The answer of a queue, and the queue after it.
unfoldable pub answer : Request → List ℕ → Option ℕ × List ℕ
answer reads [] = (none, [])
answer reads (c ∷ queue) = (some c, queue)
answer peeks [] = (none, [])
answer peeks (c ∷ queue) = (some c, c ∷ queue)
answer asks [] = (some 0, [])
answer asks (c ∷ queue) = (some 1, c ∷ queue)

unfoldable pub answers : List Request → List ℕ → List (Option ℕ)
unfolding answer
answers [] queue = []
answers (r ∷ rs) queue = let (a, queue') = answer r queue in a ∷ answers rs queue'

-- What read() and select() do for a descriptor with bytes to come: documented of the host.
pub record Delivers {S : Type 0} (terminal : Terminal S) (fd : ℕ) (incoming : S → List ℕ)
    : Type 0 where
  pub read_none : (s : S) → incoming s ≡ [] → (terminal.read_byte fd s).0 ≡ none
  pub left_none : (s : S) → incoming s ≡ [] → incoming (terminal.read_byte fd s).1 ≡ []
  pub read_some :
      (s : S) (c : ℕ) (cs : List ℕ) → incoming s ≡ c ∷ cs → (terminal.read_byte fd s).0 ≡ some c
  pub left_some :
      (s : S) (c : ℕ) (cs : List ℕ)
      → incoming s ≡ c ∷ cs
      → incoming (terminal.read_byte fd s).1 ≡ cs
  pub select_none : (s : S) → incoming s ≡ [] → terminal.is_readable fd s ≡ false
  pub select_some :
      (s : S) (c : ℕ) (cs : List ℕ) → incoming s ≡ c ∷ cs → terminal.is_readable fd s ≡ true

abbrev pub before : Option ℕ → List ℕ → List ℕ
before none queue = queue
before (some c) queue = c ∷ queue

abbrev pub port : ℕ → List ℕ → Option ℕ → PtySerial
port fd path c = record { port_path = path; port_fd = some fd; bufch = c }

module _ {S : Type 0} (terminal : Terminal S) where
  unfoldable pub serve : Request → PtySerial → S → Option ℕ × PtySerial × S
  unfolding read_pty peek_pty available_pty
  serve reads p s = read_pty terminal p s
  serve peeks p s = peek_pty terminal p s
  serve asks p s = (some (available_pty terminal p s), p, s)

  unfoldable pub serve_all : List Request → PtySerial → S → List (Option ℕ)
  unfolding serve
  serve_all [] p s = []
  serve_all (r ∷ rs) p s = let (a, p', s') = serve r p s in a ∷ serve_all rs p' s'

module _ {S : Type 0} (terminal : Terminal S) (fd : ℕ) (incoming : S → List ℕ)
    (law : Delivers terminal fd incoming) where
  serve_empty_buffer :
      (rs : List Request) (path : List ℕ) (s : S)
      → ((c : Option ℕ) (s : S)
          → serve_all terminal rs (port fd path c) s ≡ answers rs (before c (incoming s)))
      → (r : Request) (queue : List ℕ) → incoming s ≡ queue
      → serve_all terminal (r ∷ rs) (port fd path none) s ≡ answers (r ∷ rs) queue
  unfolding serve_all serve answers answer read_pty peek_pty available_pty fill
  serve_empty_buffer rs path s later reads [] e =
      rw (law.read_none s e, later none (terminal.read_byte fd s).1, law.left_none s e) refl
  serve_empty_buffer rs path s later reads (c ∷ cs) e =
      rw (law.read_some s c cs e, later none (terminal.read_byte fd s).1, law.left_some s c cs e)
        refl
  serve_empty_buffer rs path s later peeks [] e =
      rw (law.read_none s e, later none (terminal.read_byte fd s).1, law.left_none s e) refl
  serve_empty_buffer rs path s later peeks (c ∷ cs) e =
      rw
        (law.read_some s c cs e, later (some c) (terminal.read_byte fd s).1, law.left_some s c cs e)
        refl
  serve_empty_buffer rs path s later asks [] e = rw (law.select_none s e, later none s, e) refl
  serve_empty_buffer rs path s later asks (c ∷ cs) e =
      rw (law.select_some s c cs e, later none s, e) refl

  -- On an open port, any sequence of read(), peek() and available() answers what a queue answers that
  -- holds the byte that was peeked, if there is one, and then the bytes that come in: read() takes the
  -- first, peek() leaves it, available() is 1 or 0. It is supposed that read() and select() of the host
  -- deliver these bytes in order.
  pub serve_all-answers :
      (rs : List Request) (path : List ℕ) (c : Option ℕ) (s : S)
      → serve_all terminal rs (port fd path c) s ≡ answers rs (before c (incoming s))
  unfolding serve_all serve answers answer read_pty peek_pty available_pty fill
  serve_all-answers [] path c s = refl
  serve_all-answers (reads ∷ rs) path (some c) s =
      ap (◌∷◌ (some c)) (serve_all-answers rs path none s)
  serve_all-answers (peeks ∷ rs) path (some c) s =
      ap (◌∷◌ (some c)) (serve_all-answers rs path (some c) s)
  serve_all-answers (asks ∷ rs) path (some c) s =
      ap (◌∷◌ (some 1)) (serve_all-answers rs path (some c) s)
  serve_all-answers (r ∷ rs) path none s =
      serve_empty_buffer rs path s (serve_all-answers rs path) r (incoming s) refl
