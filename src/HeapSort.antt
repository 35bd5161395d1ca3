-- ===== src/HeapSort.antt =====
-- `gc_heapsort_uwords` of src/runtime/gc-common.c, which sorts without memory of its own. An
-- array is a function of the index. A child whose number does not fit an `int` is a fault.
pub mod SiftDown
pub mod Repair
pub mod Sorted
mod Tests
use cl.Common.{
  ℕ, zero, suc, ◌+◌, ◌-◌, ◌*◌, ◌/◌, ◌^◌, ◌≡◌, Bool, true, false, ◌&&◌, ltb, leb, ◌==◌,
  if◌then◌else◌, Outcome, ok, fault, ◌>>=◌, assign,
}

abbrev pub swap : (ℕ → ℕ) → ℕ → ℕ → ℕ → ℕ
swap a i j = assign (assign a i (a j)) j (a i)

-- The larger of the children of `root`, of which the first is not behind `end`.
abbrev pub larger_child : (ℕ → ℕ) → ℕ → ℕ → ℕ
larger_child array root end =
    let child : ℕ = root * 2 + 1 in
    if leb (child + 1) end && ltb (array child) (array (child + 1)) then child + 1 else child

-- The loop of `sift_down`, on fuel for its rounds. `root`, `child` and `end` are `int`s.
unfoldable pub sift_rounds : ℕ → (ℕ → ℕ) → ℕ → ℕ → Outcome (ℕ → ℕ)
sift_rounds zero array root end = fault
sift_rounds (suc fuel) array root end =
    let child = larger_child array root end in
    let rest = sift_rounds fuel (swap array root child) child end in
    if leb (2 ^ 31) (root * 2 + 1)
    then fault
    else if leb (root * 2 + 1) end
    then (if ltb (array root) (array child) then rest else ok array)
    else ok array

unfoldable pub sift_down : (ℕ → ℕ) → ℕ → ℕ → Outcome (ℕ → ℕ)
sift_down array start end = sift_rounds (end + 1) array start end

-- `while (start >= 0)`, for `n` values of `start` below `n`.
unfoldable pub heapify_rounds : ℕ → (ℕ → ℕ) → ℕ → Outcome (ℕ → ℕ)
heapify_rounds zero array end = ok array
heapify_rounds (suc start) array end = sift_down array start end >>= λ a. heapify_rounds start a end

-- In C `(length - 2) / 2` is -1 for a length of 0, and 0 for 1.
unfoldable pub heapify : (ℕ → ℕ) → ℕ → Outcome (ℕ → ℕ)
heapify array length =
    heapify_rounds (if length == 0 then 0 else (length - 2) / 2 + 1) array (length - 1)

-- `while (end > 0)`
unfoldable pub sort_rounds : ℕ → (ℕ → ℕ) → Outcome (ℕ → ℕ)
sort_rounds zero array = ok array
sort_rounds (suc end) array = sift_down (swap array (suc end) 0) 0 end >>= λ a. sort_rounds end a

unfoldable pub gc_heapsort_uwords : (ℕ → ℕ) → ℕ → Outcome (ℕ → ℕ)
gc_heapsort_uwords array length = heapify array length >>= λ a. sort_rounds (length - 1) a
