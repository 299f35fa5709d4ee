-- ===== src/Files.antt =====
-- The file system of the host as the one of a board: libraries/EpoxyFS/src/EpoxyFS.h, EpoxyFS.cpp and
-- FSImpl.cpp. What the host does is the parameter Host, on a state S; a FILE* is a number.
pub mod Paths
pub mod Modes
pub mod Listing
mod Tests
use epoxy_duino.Base.{
  ℕ, ◌+◌, ◌%◌, ◌^◌, Bool, true, false, not, ◌||◌, ◌&&◌, if◌then◌else◌, ltb, ◌==◌, List, [], ◌∷◌,
  ◌++◌, Option, none, some,
}
use epoxy_duino.Base.Text.{Bytes, codes, first, same_text}

-- OpenMode and AccessMode are sets of bits.
abbrev pub om_default : ℕ
om_default = 0

abbrev pub om_create : ℕ
om_create = 1

abbrev pub om_append : ℕ
om_append = 2

abbrev pub om_truncate : ℕ
om_truncate = 4

abbrev pub am_read : ℕ
am_read = 1

abbrev pub am_write : ℕ
am_write = 2

abbrev pub am_rw : ℕ
am_rw = 3

-- the first switch of sflags()
abbrev pub first_flag : ℕ → Option (ℕ × ℕ)
first_flag c =
    if c == b'r'
    then some (om_default, am_read)
    else if c == b'w'
    then some (om_create + om_truncate, am_write)
    else if c == b'a'
    then some (om_create + om_append, am_write)
    else none

-- the second one, which sets the access mode
abbrev pub second_flag : ℕ → ℕ × ℕ → Option (ℕ × ℕ)
second_flag c (om, am) =
    if c == b'+' then some (om, am_rw) else if c == 0 then some (om, am) else none

abbrev pub tail_of : Bytes → Bytes
tail_of [] = []
tail_of (c ∷ cs) = cs

-- `none` where it answers false
unfoldable pub sflags : Bytes → Option (ℕ × ℕ)
sflags mode = elim (first_flag (first mode)) [
  | none ↦ none
  | some m ↦ second_flag (first (tail_of mode)) m
]

-- openMode & OM_TRUNCATE
abbrev pub truncates : ℕ → Bool
truncates om = not (om % 8 == om % 4)

unfoldable pub rsflags : ℕ → ℕ → Bytes
rsflags om am =
    if am == am_read
    then codes "r"
    else if am == am_write
    then if truncates om then codes "w" else codes "a"
    else if am == am_rw
    then if om == om_default then codes "r+" else if truncates om then codes "w+" else codes "a+"
    else []

-- `a[a.length() - 1]`, which the program reads of texts that are not empty
abbrev pub last_byte : Bytes → ℕ
last_byte [] = 0
last_byte (c ∷ []) = c
last_byte (c ∷ d ∷ cs) = last_byte (d ∷ cs)

unfoldable pub file_name_concat : Bytes → Bytes → Bytes
file_name_concat a b =
    if last_byte a == b'/'
    then if first b == b'/' then a ++ tail_of b else a ++ b
    else if first b == b'/'
    then a ++ b
    else a ++ b'/' ∷ b

-- What follows the last slash.
unfoldable pub base_name : Bytes → Bytes → Bytes
base_name whole [] = whole
base_name whole (c ∷ cs) =
    let later = base_name cs cs in
    let same = base_name whole cs in if c == b'/' then later else same

-- The calls of the host, with the size that fstat() finds behind fopen().
pub record Host (S : Type 0) : Type 0 where
  pub fopen : Bytes → Bytes → S → Option (ℕ × ℕ) × S
  pub fclose : ℕ → S → S
  pub truncate : Bytes → ℕ → S → Bool × S
  pub is_there : Bytes → S → Bool
  pub is_directory : Bytes → S → Bool
  pub make_directory : Bytes → S → Bool × S
  pub remove_directory : Bytes → S → Bool × S
  pub remove : Bytes → S → Bool × S
  pub rename : Bytes → Bytes → S → Bool × S

pub record EpoxyFile : Type 0 where
  pub path : Bytes
  pub mode : Bytes
  pub fp : Option ℕ
  pub name : Bytes
  pub size : ℕ

module _ {S : Type 0} (host : Host S) (fsroot : Bytes) where
  unfoldable pub open_file : Bytes → ℕ → ℕ → S → Option EpoxyFile × S
  unfolding file_name_concat rsflags base_name
  open_file path om am s =
      let mode = rsflags om am in
      let (opened, s') = host.fopen (file_name_concat fsroot path) mode s in
      elim opened [
        | none ↦ (none, s')
        | some (fp, size) ↦ (
          some (record {
            path = path;
            mode = mode;
            fp = some fp;
            name = base_name path path;
            size = size;
          }),
          s',
        )
      ]

  unfoldable pub close_file : EpoxyFile → S → EpoxyFile × S
  close_file f s = elim f.fp [
    | none ↦ (f, s)
    | some fp ↦ (record f { fp = none }, host.fclose fp s)
  ]

  -- The program reads the size of a file that it could not open again; here it stays.
  unfoldable pub reopen : EpoxyFile → S → EpoxyFile × S
  unfolding file_name_concat
  reopen f s =
      let (opened, s') = host.fopen (file_name_concat fsroot f.path) f.mode s in
      elim opened [
        | none ↦ (f, s')
        | some (fp, size) ↦ (record f { fp = some fp; size = size }, s')
      ]

  unfoldable pub truncate_file : ℕ → EpoxyFile → S → Bool × EpoxyFile × S
  unfolding close_file reopen file_name_concat
  truncate_file size f s =
      let (closed, s₁) = close_file f s in
      let (done, s₂) = host.truncate (file_name_concat fsroot f.path) size s₁ in
      let (again, s₃) = reopen closed s₂ in if done then (true, again, s₃) else (false, closed, s₂)

  unfoldable pub exists : Bytes → S → Bool
  unfolding file_name_concat
  exists path s = host.is_there (file_name_concat fsroot path) s

  unfoldable pub rename_file : Bytes → Bytes → S → Bool × S
  unfolding file_name_concat
  rename_file from to s = host.rename (file_name_concat fsroot from) (file_name_concat fsroot to) s

  unfoldable pub remove_file : Bytes → S → Bool × S
  unfolding file_name_concat
  remove_file path s = host.remove (file_name_concat fsroot path) s

  unfoldable pub mkdir : Bytes → S → Bool × S
  unfolding file_name_concat
  mkdir path s = host.make_directory (file_name_concat fsroot path) s

  unfoldable pub rmdir : Bytes → S → Bool × S
  unfolding file_name_concat
  rmdir path s = host.remove_directory (file_name_concat fsroot path) s

  -- EpoxyDirImpl::openFile(), for the entry `name` of the directory `dir`
  unfoldable pub open_entry : Bytes → Bytes → ℕ → ℕ → S → Option EpoxyFile × S
  unfolding open_file file_name_concat
  open_entry dir name om am s = open_file (file_name_concat dir name) om am s

  -- EpoxyFSImpl::begin()
  unfoldable pub begin_fs : S → Bool × S
  begin_fs s =
      let (made, s') = host.make_directory fsroot s in
      if host.is_there fsroot s
      then (host.is_directory fsroot s, s)
      else if not made
      then (false, s')
      else if not (host.is_there fsroot s')
      then (false, s')
      else (host.is_directory fsroot s', s')

-- EpoxyDirImpl::next() on the names that readdir() has left, which may be "." and "..". The size that it
-- looks up is left out.
abbrev pub is_dots : Bytes → Bool
is_dots name = same_text name (codes ".") || same_text name (codes "..")

unfoldable pub next_entry : List Bytes → Option (Bytes × List Bytes)
next_entry [] = none
next_entry (name ∷ names) =
    let later = next_entry names in if is_dots name then later else some (name, names)

-- accumulateUsedBytes() over the entries of a walk: whether each is a file, and its size.
unfoldable pub used_bytes : ℕ → List (Bool × ℕ) → ℕ
used_bytes used [] = used
used_bytes used ((is_file, size) ∷ entries) =
    let counted = used_bytes ((used + size) % 2 ^ 64) entries in
    let skipped = used_bytes used entries in if is_file then counted else skipped

-- `parsed` is what strtoull() makes of EPOXY_FS_SIZE_BYTES, where it is set and begins with digits.
unfoldable pub get_configured_total_bytes : Option ℕ → ℕ
get_configured_total_bytes none = 2 ^ 22
get_configured_total_bytes (some n) = if ltb 0 n then n else 2 ^ 22
