-- ===== src/Board/Yield/Slots.antt =====
-- The slots of the table of background services (cores/epoxy/Arduino.cpp): what its loops write, and
-- how often a pair then stands there.
use epoxy_duino.Base.{
  not, ℕ, ◌+◌, ◌≡◌, ap, refl, true, ◌&&◌, if◌then◌else◌, ◌==◌, ==_self, List, [], ◌∷◌, ◌++◌, Option,
  none, some, arith, length,
}
use epoxy_duino.Board.{YieldServiceEntry, empty_entry}
use epoxy_duino.Board.Yield.{same_pointer, matches, has_entry, fill_entry, clear_entry}

pub same_pointer_eq : (a b : Option ℕ) → same_pointer a b ≡ true → a ≡ b
unfolding same_pointer
same_pointer_eq none none h = refl
same_pointer_eq none (some b) h = cc
same_pointer_eq (some a) none h = cc
same_pointer_eq (some a) (some b) h = ground arith

pub same_pointer_self : (a : Option ℕ) → same_pointer a a ≡ true
unfolding same_pointer
same_pointer_self none = refl
same_pointer_self (some a) = ==_self a

-- how often a pair stands in the table
abbrev pub entry_count : Option ℕ → Option ℕ → List YieldServiceEntry → ℕ
entry_count callback context [] = 0
entry_count callback context (e ∷ es) =
    (if matches callback context e then 1 else 0) + entry_count callback context es

-- how many slots are free
abbrev pub free_count : List YieldServiceEntry → ℕ
free_count [] = 0
free_count (e ∷ es) = (if same_pointer e.callback none then 1 else 0) + free_count es

pub has_entry-entry_count :
    (f x : Option ℕ) (es : List YieldServiceEntry)
    → (has_entry f x es) ≡ not (entry_count f x es == 0)
unfolding has_entry
has_entry-entry_count f x [] = refl
has_entry-entry_count f x (e ∷ es) = ground (arith, has_entry-entry_count f x es)

-- 1 if the two pairs are one
abbrev pub same_pair : ℕ → Option ℕ → ℕ → Option ℕ → ℕ
same_pair f x g y = if (f == g) && same_pointer x y then 1 else 0

-- Filling fails only on a full table; else it adds the pair once and takes one free slot.
abbrev pub Filled :
    ℕ → Option ℕ → ℕ → Option ℕ → List YieldServiceEntry → Option (List YieldServiceEntry) → Type 0
Filled f x g y es none = free_count es ≡ 0
Filled f x g y es (some r) =
    (entry_count (some g) y r ≡ entry_count (some g) y es + same_pair f x g y)
    × (free_count r + 1 ≡ free_count es)
    × (length r ≡ length es)

module _ (f : ℕ) (x : Option ℕ) (g : ℕ) (y : Option ℕ) where
  Filled-step :
      (c z : Option ℕ) (es : List YieldServiceEntry) (o : Option (List YieldServiceEntry))
      → Filled f x g y es o
      → Filled f x g y (record { callback = c; context = z } ∷ es) (
          if same_pointer c none
          then some (record { callback = some f; context = x } ∷ es)
          else elim o [ some r ↦ some (record { callback = c; context = z } ∷ r) | none ↦ none ])
  unfolding same_pointer
  Filled-step none z es o h = ground arith
  Filled-step (some c) z es none h = ground arith
  Filled-step (some c) z es (some r) h = ground arith

  pub fill_entry-Filled :
      (es : List YieldServiceEntry) → Filled f x g y es (fill_entry (some f) x es)
  unfolding fill_entry
  fill_entry-Filled [] = refl
  fill_entry-Filled (e ∷ es) =
      Filled-step e.callback e.context es (fill_entry (some f) x es) (fill_entry-Filled es)

-- Filling writes the first free slot and no other.
abbrev pub FilledFirst :
    ℕ → Option ℕ → List YieldServiceEntry → Option (List YieldServiceEntry) → Type 0
FilledFirst f x es none = Unit
FilledFirst f x es (some r) =
    (front : List YieldServiceEntry) × (e : YieldServiceEntry) × (back : List YieldServiceEntry)
    × (es ≡ front ++ e ∷ back)
    × (e.callback ≡ none)
    × (free_count front ≡ 0)
    × (r ≡ front ++ record { callback = some f; context = x } ∷ back)

module _ (f : ℕ) (x : Option ℕ) where
  FilledFirst-step :
      (c z : Option ℕ) (es : List YieldServiceEntry) (o : Option (List YieldServiceEntry))
      → FilledFirst f x es o
      → FilledFirst f x (record { callback = c; context = z } ∷ es) (
          if same_pointer c none
          then some (record { callback = some f; context = x } ∷ es)
          else elim o [ some r ↦ some (record { callback = c; context = z } ∷ r) | none ↦ none ])
  unfolding same_pointer
  FilledFirst-step none z es o h =
      ([], record { callback = none; context = z }, es, refl, refl, refl, refl)
  FilledFirst-step (some c) z es none h = tt
  FilledFirst-step (some c) z es (some r) (front, e, back, split, free, none_free, filled) =
      let d : YieldServiceEntry = record { callback = some c; context = z } in
      (
        d ∷ front,
        e,
        back,
        ap (λ t. d ∷ t) split,
        free,
        ground (arith, none_free),
        ap (λ t. d ∷ t) filled,
      )

  pub fill_entry-FilledFirst :
      (es : List YieldServiceEntry) → FilledFirst f x es (fill_entry (some f) x es)
  unfolding fill_entry
  fill_entry-FilledFirst [] = tt
  fill_entry-FilledFirst (e ∷ es) =
      FilledFirst-step e.callback e.context es (fill_entry (some f) x es)
        (fill_entry-FilledFirst es)

-- Clearing removes the pair once and frees its slot; it fails only if the pair is not there.
abbrev pub Cleared :
    ℕ → Option ℕ → ℕ → Option ℕ → List YieldServiceEntry → Option (List YieldServiceEntry) → Type 0
Cleared f x g y es none = entry_count (some f) x es ≡ 0
Cleared f x g y es (some r) =
    (entry_count (some g) y es ≡ entry_count (some g) y r + same_pair f x g y)
    × (free_count r ≡ free_count es + 1)
    × (length r ≡ length es)

module _ (f : ℕ) (x : Option ℕ) (g : ℕ) (y : Option ℕ) where
  Cleared-step :
      (c z : Option ℕ) (es : List YieldServiceEntry) (o : Option (List YieldServiceEntry))
      → Cleared f x g y es o
      → Cleared f x g y (record { callback = c; context = z } ∷ es) (
          if matches (some f) x (record { callback = c; context = z })
          then some (empty_entry ∷ es)
          else elim o [ some r ↦ some (record { callback = c; context = z } ∷ r) | none ↦ none ])
  unfolding same_pointer
  Cleared-step none z es none h = ground arith
  Cleared-step none z es (some r) h = ground arith
  Cleared-step (some c) z es none h = ground (arith, same_pointer_eq z x)
  Cleared-step (some c) z es (some r) h = ground (arith, same_pointer_eq z x)

  pub clear_entry-Cleared :
      (es : List YieldServiceEntry) → Cleared f x g y es (clear_entry (some f) x es)
  unfolding clear_entry
  clear_entry-Cleared [] = refl
  clear_entry-Cleared (e ∷ es) =
      Cleared-step e.callback e.context es (clear_entry (some f) x es) (clear_entry-Cleared es)
