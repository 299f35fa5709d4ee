-- ===== src/Files/Tests.antt =====
-- Files on a host with one file (libraries/EpoxyFS/src).
use epoxy_duino.Base.{◌≡◌, ◌+◌, refl, true, false, if◌then◌else◌, ◌==◌, [], ◌∷◌, some, length, take}
use native.Mathlib.Omega.{arith}
use epoxy_duino.Base.Text.{Bytes, codes, first, same_text}
use epoxy_duino.Files.{
  Host, EpoxyFile, sflags, rsflags, file_name_concat, truncate_file, close_file, reopen, om_create,
  om_truncate,
}
use epoxy_duino.Files.Modes.{rsflags-sflags}
use epoxy_duino.Files.Listing.{listing, listing-proper}

-- fopen() with "w" or "w+" empties the file.
abbrev one_file : Host Bytes
one_file = record {
  fopen = λ path mode s. let s' = if first mode == b'w' then [] else s in (some (1, length s'), s');
  fclose = λ fp s. s;
  truncate = λ path size s. (true, take size s);
  is_there = λ path s. true;
  is_directory = λ path s. false;
  make_directory = λ path s. (false, s);
  remove_directory = λ path s. (false, s);
  remove = λ path s. (false, s);
  rename = λ from to s. (false, s);
}

abbrev writable : EpoxyFile
writable = record {
  path = codes "/log.txt";
  mode = codes "w+";
  fp = some 1;
  name = codes "log.txt";
  size = 0;
}

-- truncate() on a file that was opened with "w+" empties it, whatever size it is given.
truncate_empties :
    truncate_file one_file (codes "data") 3 writable (codes "abcdef")
    ≡ (true, record writable { size = 0 }, [])
unfolding truncate_file close_file reopen file_name_concat
truncate_empties = refl

rsflags-sflags_example : rsflags (om_create + om_truncate) 3 ≡ codes "w+"
unfolding sflags
rsflags-sflags_example =
    rsflags-sflags (codes "w+b") (om_create + om_truncate) 3
      (omega arith, (omega arith, (omega arith, tt))) refl

listing-proper_example :
    listing 4 (codes "." ∷ codes "b" ∷ codes ".." ∷ codes "a" ∷ [])
    ≡ some (codes "b" ∷ codes "a" ∷ [])
unfolding same_text
listing-proper_example =
    listing-proper (codes "." ∷ codes "b" ∷ codes ".." ∷ codes "a" ∷ []) 4 (omega arith)
