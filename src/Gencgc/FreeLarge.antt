-- ===== src/Gencgc/FreeLarge.antt =====
-- `free_large_object`, with the assertions that it makes before it changes anything.
use cl.Common.{
  ℕ, ◌+◌, ◌-◌, ◌≤◌, ◌<◌, ◌≡◌, refl, ◌∙◌, arith, ◌⊎◌, inl, inr, Bool, true, false, ◌&&◌, not,
  Bool-cases, Option, none, some, ltb, leb, if◌then◌else◌, Outcome, ok, fault, lost, FirstIndex,
  first_index-FirstIndex, sum_below_change,
}
use cl.Gencgc.{GenSpace, DynamicSpace, Pte}
use cl.Gencgc.Release.{
  find_page_index, page_ends_contiguous_block_p, is_of_large_object, free_rounds, deduct,
  free_unless, free_large_object,
}
use cl.Gencgc.Balance.{IsBalanced, freed_pte, freed_between}
use cl.Gencgc.Oldspace.{deducted, deducted-table, deducted-generations, deducted-IsBalanced}

-- The pages from `first` to `last` are free, the others as they were, and the accounts are true; or
-- an assertion fails.
abbrev pub FreedObject : GenSpace → DynamicSpace → ℕ → ℕ → ℕ → Outcome DynamicSpace → Type 0
FreedObject s h where_ first last (ok r) =
    ((p : ℕ)
      → r.page_table p
        ≡ (if leb first p && ltb p (last + 1) then freed_pte (h.page_table p) else h.page_table p))
    × (r.bytes_allocated + h.generations (h.page_table first).gen
        ≡ h.bytes_allocated + r.generations (h.page_table first).gen)
    × IsBalanced s r
FreedObject s h where_ first last lost =
    (page_ends_contiguous_block_p s h last ≡ false)
    ⊎ ((p : ℕ) × (first ≤ p)
        × (p ≤ last)
        × (is_of_large_object s h (h.page_table first).gen where_ p ≡ false))
FreedObject s h where_ first last fault = ⊥

module _ (s : GenSpace) (h : DynamicSpace) (where_ first last : ℕ) (b : IsBalanced s h)
    (valid : (h.page_table first).gen < s.num_generations) (le : first ≤ last)
    (inside : last < s.page_table_pages) where
  abbrev gen : ℕ
  gen = (h.page_table first).gen

  abbrev count : ℕ
  count = last + 1 - first

  abbrev every : Pte → Bool
  every p = true

  abbrev not_of_object : ℕ → Bool
  not_of_object p = not (is_of_large_object s h gen where_ p)

  between :
      (p : ℕ)
      → first + count ≡ last + 1
      → freed_between s every h first (first + count) p
        ≡ (if leb first p && ltb p (last + 1) then freed_pte (h.page_table p) else h.page_table p)
  between p end = elim (Bool-cases (leb first p)) [
    | inr e ↦ rw e refl
    | inl e ↦ elim (Bool-cases (ltb p (last + 1))) [
      | inl f ↦ rw (end, e, f) refl
      | inr f ↦ rw (end, e, f) refl
    ]
  ]

  freed_object :
      ((p : ℕ) → first ≤ p → p ≤ last → (h.page_table p).gen ≡ gen)
      → FreedObject s h where_ first last (ok (deduct (free_rounds count s every h first 0) gen))
  freed_object own =
      let of_gen : (i : ℕ)
          → first ≤ i
          → i < first + count
          → true ≡ true
          → (h.page_table i).gen ≡ gen =
        λ i ge lt _. own i ge (omega arith) in
      let top : first + count ≤ s.page_table_pages = omega arith in
      let after = deducted s every h first count gen b valid of_gen top in
      let end : first + count ≡ last + 1 = omega arith in
      let balanced = deducted-IsBalanced s every h first count gen b valid of_gen top in
      let change =
        sum_below_change s.num_generations gen after.generations h.generations valid (λ j other.
          ground
            (arith, other, deducted-generations s every h first count gen b valid of_gen top j)) in
      (
        (λ p. deducted-table s every h first count gen b valid of_gen top p ∙ between p end),
        omega (arith, change, balanced.total, b.total),
        balanced,
      )

  of_object-gen : (p : ℕ) → not_of_object p ≡ false → (h.page_table p).gen ≡ gen
  unfolding is_of_large_object
  of_object-gen p e = ground (arith, e)

  freed_unless :
      (o : Option ℕ)
      → FirstIndex not_of_object count first o
      → FreedObject s h where_ first last (free_unless s h first last o)
  freed_unless (some p) (ge, lt, hit, _) = inr (p, ge, omega arith, ground (arith, hit))
  freed_unless none all_of_object =
      freed_object (λ p ge at_most. of_object-gen p (all_of_object p ge (omega arith)))

-- For an object that starts and ends in the table, on a heap with true accounts, where the first
-- page is of a generation of the heap, `free_large_object` frees exactly the pages from the first to
-- the last, takes as much from the bytes allocated as from those of the generation, and the accounts
-- stay true; or an assertion fails, and then the last page does not end a block, or one of the pages is not of
-- a large object of the generation that starts there.
pub free_large_object-FreedObject :
    (s : GenSpace) (h : DynamicSpace) (where_ end first last : ℕ)
    → find_page_index s where_ ≡ some first
    → find_page_index s (end - 1) ≡ some last
    → first ≤ last
    → last < s.page_table_pages
    → (h.page_table first).gen < s.num_generations
    → IsBalanced s h
    → FreedObject s h where_ first last (free_large_object s h where_ end)
unfolding free_large_object
free_large_object-FreedObject s h where_ end first last at_first at_last le inside valid b =
    rw (at_first, at_last)
      (elim (Bool-cases (page_ends_contiguous_block_p s h last)) [
        | inr e ↦ rw e (inl e)
        | inl e ↦ rw e (
            freed_unless s h where_ first last b valid le inside _
              (first_index-FirstIndex _ _ first))
      ])
