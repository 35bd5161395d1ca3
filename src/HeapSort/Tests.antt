-- ===== src/HeapSort/Tests.antt =====
-- Concrete runs of the heap sort, and the theorem at a concrete input.
use cl.Common.{arith, ℕ, ◌+◌, ◌*◌, ◌≡◌, refl, ok, ◌>>=◌, Returns, ◌==◌, if◌then◌else◌}
use cl.HeapSort.{sift_rounds, sift_down, heapify_rounds, heapify, sort_rounds, gc_heapsort_uwords}
use cl.HeapSort.Sorted.{IsSortOf, gc_heapsort_uwords-IsSortOf}

-- 3, 1, 4, 1
abbrev digits_of_pi : ℕ → ℕ
digits_of_pi i = if i == 0 then 3 else if i == 2 then 4 else 1

gc_heapsort_uwords-IsSortOf_example :
    Returns (gc_heapsort_uwords digits_of_pi 4) (IsSortOf 4 digits_of_pi)
gc_heapsort_uwords-IsSortOf_example = gc_heapsort_uwords-IsSortOf digits_of_pi 4 (omega arith)

in_order :
    (gc_heapsort_uwords digits_of_pi 4 >>= λ a. ok (a 0 * 1000 + a 1 * 100 + a 2 * 10 + a 3))
    ≡ ok 1134
unfolding gc_heapsort_uwords heapify heapify_rounds sort_rounds sift_down sift_rounds
in_order = refl
