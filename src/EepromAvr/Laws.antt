-- ===== src/EepromAvr/Laws.antt =====
-- Reading and writing of EpoxyEepromAvr (libraries/EpoxyEepromAvr/src/EpoxyEepromAvr.h).
use native.Mathlib.Nat.{mod-eq_of_lt}
use epoxy_duino.Base.{
  ℕ, suc, zero, ◌+◌, ◌^◌, ◌≤◌, ◌<◌, ◌≡◌, refl, sym, ap, ◌∙◌, ◌⊎◌, inl, inr, Bool-cases, false,
  if◌then◌else◌, ◌==◌, ==_self, [], ◌∷◌, length, arith,
}
use epoxy_duino.Base.Text.{Bytes}
use epoxy_duino.EepromAvr.{
  Cells, Stores, increment, deref, assign_cell, update, read_cell, write_cell, update_cell,
  get_from, put_from, get_object, put_object,
}

later : (i j n : ℕ) → (j < i) ⊎ (i + suc n ≤ j) → (j < suc i) ⊎ (suc i + n ≤ j)
later i j n (inl before) = inl (omega arith)
later i j n (inr behind) = inr (omega arith)

increment_lem : (i : ℕ) → suc i < 2 ^ 32 → increment (record { at = i }) ≡ record { at = suc i }
unfolding increment
increment_lem i h =
    ap (λ (n : ℕ). record { at = n })
      (mod-eq_of_lt {n = i + 1} {m = 2 ^ 32} (omega arith) ∙ omega arith)

module _ {S : Type 0} (cells : Cells S) where
  put_from-get_from :
      (n i : ℕ) (s : S)
      → i + n < 2 ^ 32
      → put_from cells (get_from cells n (record { at = i }) s) (record { at = i }) s ≡ s
  unfolding put_from get_from update
  put_from-get_from zero i s h = refl
  put_from-get_from (suc n) i s h =
      rw
        (
          increment_lem i (omega arith),
          ==_self (deref cells (record { index = i }) s),
          increment_lem i (omega arith),
        )
        (put_from-get_from n (suc i) s (omega arith))

  -- put() of the object that get() finds at an index writes nothing, within the range of an int.
  pub put_object-get_object :
      (idx size : ℕ) (s : S)
      → idx + size < 2 ^ 31
      → put_object cells idx (get_object cells idx size s) s ≡ s
  unfolding put_object get_object
  put_object-get_object idx size s h = put_from-get_from size idx s (omega arith)

module _ {S : Type 0} (cells : Cells S) (stores : Stores cells) where
  abbrev at_cell : ℕ → S → ℕ
  at_cell j s = deref cells (record { index = j }) s

  deref-assign_cell :
      (i j v : ℕ) (s : S)
      → at_cell j (assign_cell cells (record { index = i }) v s)
        ≡ (if i == j then v else at_cell j s)
  unfolding assign_cell deref
  deref-assign_cell i j v s = elim (Bool-cases (i == j)) [
    | inl same ↦ let e = stores.stored s i j v in rw (deref, e, same) refl
    | inr other ↦ let e = stores.stored s i j v in rw (deref, e, other) refl
  ]

  deref-update :
      (i j v : ℕ) (s : S)
      → at_cell j (update cells (record { index = i }) v s) ≡ (if i == j then v else at_cell j s)
  unfolding update
  deref-update i j v s = elim (Bool-cases (v == at_cell i s)) [
    | inr new ↦ rw new (deref-assign_cell i j v s)
    | inl same ↦ elim (Bool-cases (i == j)) [
      | inr other ↦ rw (same, other) refl
      | inl here ↦
          let e : i ≡ j = ground arith in
          rw (same, here) (ap (λ k. at_cell k s) (sym e) ∙ ground arith)
    ]
  ]

  put_from-below :
      (bs : Bytes) (i j : ℕ) (s : S)
      → i + length bs < 2 ^ 32
      → (j < i) ⊎ (i + length bs ≤ j)
      → at_cell j (put_from cells bs (record { at = i }) s) ≡ at_cell j s
  unfolding put_from
  put_from-below [] i j s h out = refl
  put_from-below (b ∷ bs) i j s h out =
      let apart : (i == j) ≡ false = ground arith in
      rw (increment_lem i (omega arith)) (
        put_from-below bs (suc i) j (update cells (record { index = i }) b s) (omega arith)
          (later i j (length bs) out)
        ∙ deref-update i j b s
        ∙ rw apart refl)

  get_from-put_from :
      (bs : Bytes) (i : ℕ) (s : S)
      → i + length bs < 2 ^ 32
      → get_from cells (length bs) (record { at = i }) (put_from cells bs (record { at = i }) s)
        ≡ bs
  unfolding get_from put_from
  get_from-put_from [] i s h = refl
  get_from-put_from (b ∷ bs) i s h =
      let s' = update cells (record { index = i }) b s in
      let head : at_cell i (put_from cells bs (record { at = suc i }) s') ≡ b =
        put_from-below bs (suc i) i s' (omega arith) (inl (omega arith))
        ∙ deref-update i i b s
        ∙ rw (==_self i) refl in
      rw (increment_lem i (omega arith), head)
        (ap (◌∷◌ b) (get_from-put_from bs (suc i) s' (omega arith)))

  -- get() finds the object that put() stored at an index, within the range of an int, if the file
  -- stores what is written.
  pub get_object-put_object :
      (idx : ℕ) (t : Bytes) (s : S)
      → idx + length t < 2 ^ 31
      → get_object cells idx (length t) (put_object cells idx t s) ≡ t
  unfolding get_object put_object
  get_object-put_object idx t s h = get_from-put_from t idx s (omega arith)

  -- put() changes no cell outside of the object that it stores, within the range of an int, if the
  -- file stores what is written.
  pub read_cell-put_object :
      (idx j : ℕ) (t : Bytes) (s : S)
      → idx + length t < 2 ^ 31
      → (j < idx) ⊎ (idx + length t ≤ j)
      → read_cell cells j (put_object cells idx t s) ≡ read_cell cells j s
  unfolding put_object read_cell
  read_cell-put_object idx j t s h out = put_from-below t idx j s (omega arith) out

  -- A cell that was written or updated reads the new byte, and every other cell as before, if the
  -- file stores what is written.
  pub read_cell-update_cell :
      (i j v : ℕ) (s : S)
      → (read_cell cells j (write_cell cells i v s) ≡ (if i == j then v else read_cell cells j s))
        × (read_cell cells j (update_cell cells i v s)
            ≡ (if i == j then v else read_cell cells j s))
  unfolding read_cell write_cell update_cell
  read_cell-update_cell i j v s = (deref-assign_cell i j v s, deref-update i j v s)
