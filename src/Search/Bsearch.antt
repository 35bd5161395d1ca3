-- ===== src/Search/Bsearch.antt =====
-- The binary searches of src/runtime/search.c in a sorted vector of code addresses.
-- `high` may be -1, so the model keeps `top`, which is `high + 1`. A sum of the two `int`s that
-- does not fit is a fault.
pub mod Located
use cl.Common.{
  ℕ, zero, suc, ◌+◌, ◌-◌, ◌*◌, ◌/◌, ◌%◌, ◌^◌, ◌≤◌, ◌<◌, ◌≡◌, ◌≢◌, refl, ap, arith, ◌⊎◌, inl, inr,
  Option, none, some, ltb, leb, ltb→lt, ◌==◌, if◌then◌else◌, Bool-cases, compare_cases, List, [],
  ◌∷◌, length, get_elem?, get_or, get_elem?-eq-get_or, Outcome, ok, lost, fault, ◌>>=◌, deref,
  Returns,
}

-- What `BSEARCH_ALGORITHM_IMPL` leaves: it returned `mid`, or fell out of its loop with `low` and
-- `top`.
pub data Probed : Type 0 where
  hit : ℕ → Probed
  missed : ℕ → ℕ → Probed

-- `BSEARCH_ALGORITHM_IMPL`, on fuel for its rounds.
unfoldable pub bsearch_rounds : ℕ → ℕ → List ℕ → ℕ → ℕ → Outcome Probed
bsearch_rounds zero item array low top = fault
bsearch_rounds (suc fuel) item array low top =
    let mid = (low + top - 1) / 2 in
    let upper = bsearch_rounds fuel item array (mid + 1) top in
    let lower = bsearch_rounds fuel item array low mid in
    if leb top low
    then ok (missed low top)
    else if leb (2 ^ 31) (low + top - 1)
    then fault
    else (deref (get_elem? array mid) >>= λ probe.
        if ltb probe item then upper else if ltb item probe then lower else ok (hit mid))

-- Each round narrows the range, so `nelements` rounds and the last test are enough.
unfoldable pub bsearch_algorithm : ℕ → List ℕ → ℕ → Outcome Probed
bsearch_algorithm item array nelements = bsearch_rounds (suc nelements) item array 0 nelements

-- `none` is the return value -1.
abbrev pub lesseql_index : Probed → Option ℕ
lesseql_index (hit mid) = some mid
lesseql_index (missed low top) = if leb 1 top then some (top - 1) else none

abbrev pub greatereql_index : ℕ → Probed → Option ℕ
greatereql_index nelements (hit mid) = some mid
greatereql_index nelements (missed low top) = if ltb low nelements then some low else none

unfoldable pub bsearch_lesseql_uword : ℕ → List ℕ → ℕ → Outcome (Option ℕ)
bsearch_lesseql_uword item array nelements = do
  probed ← bsearch_algorithm item array nelements
  ok (lesseql_index probed)

unfoldable pub bsearch_greatereql_uword : ℕ → List ℕ → ℕ → Outcome (Option ℕ)
bsearch_greatereql_uword item array nelements = do
  probed ← bsearch_algorithm item array nelements
  ok (greatereql_index nelements probed)

-- The item is a `uint32_t`, an offset into the space.
unfoldable pub bsearch_lesseql_uint32 : ℕ → List ℕ → ℕ → Outcome (Option ℕ)
bsearch_lesseql_uint32 item array nelements = do
  probed ← bsearch_algorithm (item % 2 ^ 32) array nelements
  ok (lesseql_index probed)

unfoldable pub bsearch_greatereql_uint32 : ℕ → List ℕ → ℕ → Outcome (Option ℕ)
bsearch_greatereql_uint32 item array nelements = do
  probed ← bsearch_algorithm (item % 2 ^ 32) array nelements
  ok (greatereql_index nelements probed)
