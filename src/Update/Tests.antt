-- ===== src/Update/Tests.antt =====
-- Runs of an update (libraries/EpoxyUpdate/src/Update.cpp) on a sink whose files never fail.
use epoxy_duino.Base.{ℕ, ◌≡◌, refl, Bool, true, false, List, [], ◌∷◌, ◌++◌, Option, none, some}
use epoxy_duino.Base.Text.{Bytes, codes}
use epoxy_duino.Update.{
  Sink, Update, json_escape, begin_update, write_all, end_update, abort_update,
}
use native.Mathlib.Omega.{arith}
use epoxy_duino.Update.Json.{text, json_string, json_string-json_escape}
use epoxy_duino.Update.Recorded.{Works, joined, Recorded, update_lem}

-- the image and the record of the end
abbrev Files : Type 0
Files = Bytes × Option (Bool × ℕ)

abbrev image_of : Files → Bytes
image_of s = s.0

abbrev result_of : Files → Option (Bool × ℕ)
result_of s = s.1

abbrev files : Sink Files
files = record {
  on = true;
  remove_end = λ s. (s.0, none);
  put_begin = λ s source size. (some true, s);
  put_end = λ s ok count. (some true, (s.0, some (ok, count)));
  fopen_image = λ s. (true, ([], s.1));
  fwrite_image = λ s bytes. (true, (s.0 ++ bytes, s.1));
  fflush_image = λ s. (true, s);
  fclose_image = λ s. (true, s);
}

files-Works : Works files image_of result_of
files-Works = record {
  is_on = refl;
  opened = λ s. (refl, refl);
  filled = λ s bytes. (refl, refl);
  flushed = λ s. (refl, refl);
  closed = λ s. (refl, refl);
  begun = λ s source size. refl;
  ended = λ s ok count. (refl, refl, refl);
}

escaped : json_escape (b'a' ∷ b'"' ∷ 10 ∷ []) ≡ codes "a\\\"\\u000a"
unfolding json_escape
escaped = refl

abbrev idle : Update
idle = record {
  image = false;
  written = 3;
  sink_failed = true;
  source = codes "u";
  running = false;
}

abbrev two_chunks : List Bytes
two_chunks = (1 ∷ 2 ∷ []) ∷ (3 ∷ []) ∷ []

update_lem_example :
    Recorded files image_of result_of files-Works
      (joined two_chunks)
      true
      (end_update files (write_all files two_chunks (begin_update files 3 (idle, ([], none)))))
    × Recorded files image_of result_of files-Works
        (joined two_chunks)
        false
        (abort_update files (write_all files two_chunks (begin_update files 3 (idle, ([], none)))))
update_lem_example = update_lem files image_of result_of files-Works 3 two_chunks (idle, ([], none))

json_string-json_escape_example :
    json_string text (json_escape (b'"' ∷ b'a' ∷ 10 ∷ []) ++ b'"' ∷ codes "}")
    ≡ some (b'"' ∷ b'a' ∷ 10 ∷ [], codes "}")
json_string-json_escape_example =
    json_string-json_escape (b'"' ∷ b'a' ∷ 10 ∷ []) (codes "}")
      (omega arith, (omega arith, (omega arith, tt)))
