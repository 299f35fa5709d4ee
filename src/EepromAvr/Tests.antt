-- ===== src/EepromAvr/Tests.antt =====
-- Runs of EpoxyEepromAvr (libraries/EpoxyEepromAvr/src/EpoxyEepromAvr.h) on a file that holds a byte
-- for every index.
use epoxy_duino.Base.{
  ℕ, ◌%◌, ◌≡◌, inl, inr, refl, Bool-cases, if◌then◌else◌, ◌==◌, [], ◌∷◌, some, length, arith,
}
use epoxy_duino.Base.Text.{Bytes}
use epoxy_duino.EepromAvr.{Cells, Stores, add_assign, deref, get_object, put_object}
use epoxy_duino.EepromAvr.Laws.{get_object-put_object}

abbrev memory : Cells (ℕ → ℕ)
memory = record { pread = λ s i. some (s i); pwrite = λ s i v j. if i == j then v else s j }

memory-Stores : Stores memory
memory-Stores = record {
  stored =
      λ s i j v. elim (Bool-cases (i == j)) [ inl same ↦ rw same refl | inr other ↦ rw other refl ];
}

abbrev numbered : ℕ → ℕ
numbered i = i % 256

-- operator+=() moves the reference to another cell, and changes no cell.
add_assigned : deref memory (add_assign 5 (record { index = 2 })) numbered ≡ 7
unfolding deref add_assign
add_assigned = refl

abbrev object : Bytes
object = 8 ∷ 9 ∷ []

get_object-put_object_example :
    get_object memory 3 (length object) (put_object memory 3 object numbered) ≡ object
get_object-put_object_example =
    get_object-put_object memory memory-Stores 3 object numbered (omega arith)
