-- ===== src/Update/Recorded.antt =====
-- What is recorded of an update (libraries/EpoxyUpdate/src/Update.cpp).
use epoxy_duino.Base.{
  ℕ, ◌%◌, ◌^◌, ◌≡◌, refl, sym, ap, ◌∙◌, Bool, true, false, not, ◌&&◌, ◌==◌, List, [], ◌∷◌, ◌++◌,
  append_assoc, append-nil, Option, some, length, length-append, arith,
}
use epoxy_duino.Base.Text.{Bytes}
use epoxy_duino.Update.{
  Sink, Update, json_escape, close_image, record_end, start_records, begin_update, write_update,
  write_all, end_update, abort_update,
}

-- A sink whose files never fail: `content` is what ota_image.bin holds, `result` what ota_end.json
-- says.
pub record Works {S : Type 0} (sink : Sink S) (content : S → Bytes) (result : S → Option (Bool × ℕ))
    : Type 0 where
  pub is_on : sink.on ≡ true
  pub opened : (s : S) → ((sink.fopen_image s).0 ≡ true) × (content (sink.fopen_image s).1 ≡ [])
  pub filled :
      (s : S) (bytes : Bytes)
      → ((sink.fwrite_image s bytes).0 ≡ true)
        × (content (sink.fwrite_image s bytes).1 ≡ content s ++ bytes)
  pub flushed :
      (s : S) → ((sink.fflush_image s).0 ≡ true) × (content (sink.fflush_image s).1 ≡ content s)
  pub closed :
      (s : S) → ((sink.fclose_image s).0 ≡ true) × (content (sink.fclose_image s).1 ≡ content s)
  pub begun : (s : S) (source : Bytes) (size : ℕ) → (sink.put_begin s source size).0 ≡ some true
  pub ended :
      (s : S) (ok : Bool) (count : ℕ)
      → ((sink.put_end s ok count).0 ≡ some true)
        × (content (sink.put_end s ok count).1 ≡ content s)
        × (result (sink.put_end s ok count).1 ≡ some (ok, count))

abbrev pub joined : List Bytes → Bytes
joined [] = []
joined (bytes ∷ chunks) = bytes ++ joined chunks

module _ {S : Type 0} (sink : Sink S) (content : S → Bytes) (result : S → Option (Bool × ℕ))
    (works : Works sink content result) where
  -- an update that goes well: the image is open and holds `bytes`
  abbrev Going : Bytes → Update × S → Type 0
  Going bytes (u, s) =
      (u.image ≡ true)
      × (u.sink_failed ≡ false)
      × (content s ≡ bytes)
      × (u.written ≡ length bytes % 2 ^ 64)

  write_update-Going :
      (bytes more : Bytes) (u : Update) (s : S)
      → Going bytes (u, s)
      → Going (bytes ++ more) (write_update sink more (u, s))
  unfolding write_update
  write_update-Going bytes [] u s (open_, clean, held, count) =
      rw open_
        (refl, clean, held ∙ sym (append-nil bytes), omega (arith, count, length-append bytes []))
  write_update-Going bytes (c ∷ more) u s (open_, clean, held, count) =
      let (full, grown) = works.filled s (c ∷ more) in
      let (flushed, same) = works.flushed (sink.fwrite_image s (c ∷ more)).1 in
      let some_bytes : (length (c ∷ more) == 0) ≡ false = ground arith in
      rw (open_, full, flushed, some_bytes)
        (
          refl,
          clean,
          same ∙ grown ∙ ap (λ z. z ++ (c ∷ more)) held,
          omega (arith, count, length-append bytes (c ∷ more)),
        )

  begin_update-Going : (size : ℕ) (u : Update) (s : S) → Going [] (begin_update sink size (u, s))
  unfolding begin_update start_records
  begin_update-Going size u s =
      let t = (close_image sink (u, s)).1 in
      let source = json_escape (close_image sink (u, s)).0.source in
      let put = sink.put_begin (sink.remove_end t) source size in
      let (is_open, empty) = works.opened put.1 in
      let wrote = works.begun (sink.remove_end t) source size in
      rw (works.is_on, wrote, is_open) (refl, refl, empty, omega arith)

  write_all-Going :
      (chunks : List Bytes) (bytes : Bytes) (st : Update × S)
      → Going bytes st
      → Going (bytes ++ joined chunks) (write_all sink chunks st)
  unfolding write_all
  write_all-Going [] bytes (u, s) going = (
    going.0,
    going.1,
    going.2 ∙ sym (append-nil bytes),
    omega (arith, going.3, length-append bytes []),
  )
  write_all-Going (more ∷ chunks) bytes (u, s) going =
      rw (← append_assoc bytes more (joined chunks)) (
        write_all-Going chunks (bytes ++ more) (write_update sink more (u, s))
          (write_update-Going bytes more u s going))

  -- what the two files say at the end
  abbrev pub Recorded : Bytes → Bool → Update × S → Type 0
  Recorded bytes ok (u, s) =
      (content s ≡ bytes) × (result s ≡ some (ok, length bytes % 2 ^ 64)) × (u.running ≡ false)

  close_image_lem :
      (u : Update) (s : S)
      → u.image ≡ true
      → close_image sink (u, s) ≡ (record u { image = false }, (sink.fclose_image s).1)
  unfolding close_image
  close_image_lem u s open_ = rw (open_, (works.closed s).0) refl

  record_end-Recorded :
      (ok : Bool) (bytes : Bytes) (u : Update) (s : S)
      → u.running ≡ false
      → Going bytes (u, s)
      → Recorded bytes ok (record_end sink ok (u, s))
  unfolding record_end
  record_end-Recorded ok bytes u s still (open_, clean, held, count) =
      let same = (works.closed s).1 in
      let shut = close_image_lem u s open_ in
      let t = (sink.fclose_image s).1 in
      let flag : (ok && not u.sink_failed) ≡ ok = ground arith in
      let (put, kept, said) = works.ended t ok u.written in
      rw (shut, works.is_on, flag, put, shut, flag)
        (kept ∙ same ∙ held, said ∙ rw count refl, still)

  -- An update whose sink never fails is recorded in full: after begin(), any number of write() and
  -- end(), the image holds the bytes of all the writes in their order, and the record says that it is
  -- well and how many bytes there were, modulo 2 ^ 64; after abort() in place of end() the record says
  -- that it is not well. No update is running then. The state at the start may be any.
  pub update_lem :
      (size : ℕ) (chunks : List Bytes) (st : Update × S)
      → Recorded
          (joined chunks)
          true
          (end_update sink (write_all sink chunks (begin_update sink size st)))
        × Recorded
            (joined chunks)
            false
            (abort_update sink (write_all sink chunks (begin_update sink size st)))
  unfolding end_update abort_update
  update_lem size chunks (u, s) =
      let going =
        write_all-Going chunks [] (begin_update sink size (u, s)) (begin_update-Going size u s) in
      let w = write_all sink chunks (begin_update sink size (u, s)) in
      (
        record_end-Recorded true (joined chunks) (record w.0 { running = false }) w.1 refl going,
        record_end-Recorded false (joined chunks) (record w.0 { running = false }) w.1 refl going,
      )
