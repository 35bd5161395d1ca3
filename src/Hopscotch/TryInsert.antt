-- ===== src/Hopscotch/TryInsert.antt =====
-- `try_insert` on a valid table.
use cl.Common.{
  ℕ, zero, suc, ◌+◌, ◌-◌, ◌≤◌, ◌<◌, ◌≡◌, ◌≢◌, refl, arith, Option, none, some, inl, inr, ◌==◌,
  Bool-cases, List, [], ◌∷◌, leb, not, ◌&&◌, length, drop, get_or, get_elem?, get_elem?-eq-get_or,
  Outcome, ok, Returns, Returns->>=,
}
use cl.Hopscotch.{HopscotchTable, desired_index, Attempt, full, scan_free, max_key_index}
use cl.Hopscotch.Insert.{place, try_insert}
use cl.Hopscotch.Table.{key_at, IsValid, desired_index-le}
use cl.Hopscotch.Attempts.{Tried, Rearranged-self}
use native.Mathlib.Numerals.{add-one}
use cl.Hopscotch.Place.{Ready, place-Tried, near_step}

-- The scan stops at an empty cell before its limit, or finds none.
abbrev Empty : List ℕ → ℕ → Option ℕ → Type 0
Empty keys start none = Unit
Empty keys start (some i) = (start ≤ i) × (i < length keys) × (get_or keys i 0 ≡ 0)

drop-cell : (xs : List ℕ) (i : ℕ) → i < length xs → drop i xs ≡ get_or xs i 0 ∷ drop (suc i) xs
drop-cell [] i h = absurd (omega arith)
drop-cell (x ∷ xs) zero h = refl
drop-cell (x ∷ xs) (suc i) h = drop-cell xs i (omega arith)

scan_step :
    (keys : List ℕ) (start index limit : ℕ)
    → start ≤ index
    → index ≤ limit
    → limit < length keys
    → (index < limit
        → Returns (scan_free (drop (suc index) keys) (suc index) limit) (Empty keys start))
    → Returns (scan_free (drop index keys) index limit) (Empty keys start)
unfolding scan_free
scan_step keys start index limit le in_reach lt rest =
    rw (drop-cell keys index (omega arith)) (elim (Bool-cases (get_or keys index 0 == 0)) [
      | inl here ↦ rw here (le, omega arith, ground arith)
      | inr taken ↦ elim (Bool-cases (index == limit)) [
        | inl last ↦ rw (taken, last) tt
        | inr more ↦ rw (taken, more, add-one) (rest (ground arith))
      ]
    ])

scan_free-Empty :
    (n : ℕ) (keys : List ℕ) (start index limit : ℕ)
    → start ≤ index
    → index + n ≡ limit
    → limit < length keys
    → Returns (scan_free (drop index keys) index limit) (Empty keys start)
scan_free-Empty zero keys start index limit le e lt =
    scan_step keys start index limit le (omega arith) lt (λ more. absurd (omega arith))
scan_free-Empty (suc n) keys start index limit le e lt =
    scan_step keys start index limit le (omega arith) lt
      (λ more. scan_free-Empty n keys start (suc index) limit (omega arith) (omega arith) lt)

-- An attempt to insert a key that is not 0 and not in a valid hopscotch table always returns:
-- either the key is placed, in a valid table with the old keys and that one, counted once more, or
-- the table is full, and then it is valid, though its cells may have been rearranged, and has the
-- same keys and count.
pub try_insert-Tried :
    (ht : HopscotchTable) (key val : ℕ)
    → IsValid ht
    → key ≢ 0
    → ((i : ℕ) → key_at ht i ≢ key)
    → Returns (try_insert ht key val) (Tried ht key)
unfolding try_insert
try_insert-Tried ht key val valid nonzero new = rw read (elim (Bool-cases (key_at ht bin == 0)) [
  | inl free ↦ rw free (
      near_step key val nonzero ht bin bin (ready bin (omega arith) here (ground arith))
        (omega (arith, valid.room)))
  | inr taken ↦ elim (Bool-cases (not ht.rehashing && leb ht.threshold ht.count)) [
    | inl crowded ↦ rw (taken, crowded) (Rearranged-self ht valid)
    | inr room ↦
        rw (taken, room)
          (Returns->>= (Empty ht.keys (bin + 1)) (Tried ht key) _ _
            (scan_free-Empty (max_key_index ht - (bin + 1)) ht.keys (bin + 1) (bin + 1)
              (max_key_index ht) (omega arith) (omega (arith, low, valid.room))
              (omega (arith, valid.cells, valid.room)))
            found)
  ]
])
  where
    bin : ℕ
    bin = desired_index ht key

    low : bin ≤ ht.mask
    low = desired_index-le ht key

    here : bin < length ht.keys
    here = omega (arith, low, valid.cells, valid.room)

    read : get_elem? ht.keys bin ≡ some (key_at ht bin)
    read = get_elem?-eq-get_or ht.keys bin 0 here

    ready :
        (free : ℕ)
        → bin ≤ free
        → free < length ht.keys
        → key_at ht free ≡ 0
        → Ready key val nonzero ht bin free
    ready free le lt empty = record {
      valid = valid;
      bin = refl;
      new = new;
      empty = empty;
      inside = lt;
      right = le;
    }

    found :
        (o : Option ℕ)
        → Empty ht.keys (bin + 1) o
        → Returns
            (elim o as (λ _. Outcome Attempt) [
              | none ↦ ok (full ht)
              | some free_index ↦ place (suc free_index) ht bin key val free_index
            ])
            (Tried ht key)
    found none v = Rearranged-self ht valid
    found (some f) (le, lt, empty) =
        place-Tried key val nonzero (suc f) ht bin f (ready f (omega arith) lt empty) (omega arith)
