-- ===== src/Common/Arrays.antt =====
-- Arrays and tables as functions of their index, and searches and writes over a range of indices.
use Prim.Native.Nat.{ℕ, zero, suc, ◌+◌, ◌-◌, ◌*◌, ◌≤◌, ◌<◌}
use mathlib.Core.Path.{◌≡◌, refl, ap, ◌∙◌, fun_ext}
use mathlib.Core.Logic.{◌≢◌, inl, inr}
use mathlib.Core.Bool.{Bool, true, false, ◌&&◌}
use mathlib.Core.Option.{Option, none, some}
use native.Mathlib.Omega.{arith}
use cl.Common.Tests.{ltb, leb, ◌==◌, if◌then◌else◌, Bool-cases, compare_cases}

-- An assignment to an element.
abbrev pub assign {ℓ} : {A : Type ℓ} → (ℕ → A) → ℕ → A → ℕ → A
assign f i a j = if j == i then a else f j

pub assign-assign {ℓ} :
    {A : Type ℓ} (f : ℕ → A) (i : ℕ) (a b : A) → assign (assign f i a) i b ≡ assign f i b
assign-assign f i a b =
    fun_ext (λ j. elim (Bool-cases (j == i)) [ inl e ↦ rw e refl | inr e ↦ rw e refl ])

pub assign-same {ℓ} : {A : Type ℓ} (f : ℕ → A) (i : ℕ) (a : A) → assign f i a i ≡ a
assign-same f i a = let e : (i == i) ≡ true = ground arith in rw e refl

-- Every one of the `n` elements from `start` on becomes what `g` makes of it.
unfoldable pub update_range {ℓ} : {A : Type ℓ} → (ℕ → A → A) → ℕ → ℕ → (ℕ → A) → ℕ → A
update_range g zero start f = f
update_range g (suc n) start f = update_range g n (start + 1) (assign f start (g start (f start)))

pub update_range_lem {ℓ} :
    {A : Type ℓ} (g : ℕ → A → A) (n start : ℕ) (f : ℕ → A) (i : ℕ)
    → update_range g n start f i ≡ (if leb start i && ltb i (start + n) then g i (f i) else f i)
unfolding update_range
update_range_lem g zero start f i =
    let e : (leb start i && ltb i (start + 0)) ≡ false = ground arith in rw e refl
update_range_lem g (suc n) start f i =
    rw (update_range_lem g n (start + 1) (assign f start (g start (f start))) i)
      (elim (compare_cases i start) [
        | inl e ↦ rw e (ground arith)
        | inr (inl lt) ↦ ground arith
        | inr (inr gt) ↦ ground arith
      ])

pub update_range-to {ℓ} :
    {A : Type ℓ} (g : ℕ → A → A) (first last : ℕ) (f : ℕ → A) (i : ℕ)
    → first ≤ last
    → update_range g (last - first) first f i
      ≡ (if leb first i && ltb i last then g i (f i) else f i)
update_range-to g first last f i le =
    let e : first + (last - first) ≡ last = omega arith in
    update_range_lem g (last - first) first f i
    ∙ ap (λ t. if leb first i && ltb i t then g i (f i) else f i) e

abbrev pub sum_below : ℕ → (ℕ → ℕ) → ℕ
sum_below zero f = 0
sum_below (suc n) f = f n + sum_below n f

pub sum_below-ext :
    (n : ℕ) (f g : ℕ → ℕ) → ((i : ℕ) → i < n → f i ≡ g i) → sum_below n f ≡ sum_below n g
sum_below-ext zero f g h = refl
sum_below-ext (suc n) f g h =
    omega (arith, h n (omega arith), sum_below-ext n f g (λ i lt. h i (omega arith)))

-- Two functions that differ at `i` only.
pub sum_below_change :
    (n i : ℕ) (f g : ℕ → ℕ)
    → i < n
    → ((j : ℕ) → j ≢ i → f j ≡ g j)
    → sum_below n f + g i ≡ sum_below n g + f i
sum_below_change zero i f g lt same = absurd (omega arith)
sum_below_change (suc n) i f g lt same = elim (compare_cases n i) [
  | inl e ↦
      let below = sum_below-ext n f g (λ j less. same j (λ h. omega arith)) in
      rw e (omega (arith, rw e at below))
  | inr (inl less) ↦ absurd (omega arith)
  | inr (inr more) ↦ omega (arith, same n (λ h. omega arith), sum_below_change n i f g more same)
]

pub sum_below-assign :
    (n i : ℕ) (f : ℕ → ℕ) (v : ℕ) → i < n → sum_below n (assign f i v) + f i ≡ sum_below n f + v
sum_below-assign n i f v lt =
    sum_below_change n i (assign f i v) f lt
      (λ j ne. let e : (j == i) ≡ false = ground (arith, ne) in rw e refl)
    ∙ ap (λ t. sum_below n f + t) (let e : (i == i) ≡ true = ground arith in rw e refl)

-- Two functions that agree but on a block, where the second is 0.
module _ (f g : ℕ → ℕ) where
  sum_full :
      (a full d : ℕ)
      → ((i : ℕ) → i < a → f i ≡ g i)
      → ((i : ℕ) → a ≤ i → i < a + d → (f i ≡ full) × (g i ≡ 0))
      → sum_below (a + d) f ≡ sum_below (a + d) g + d * full
  sum_full a full zero same within =
      let e : a + 0 ≡ a = omega arith in rw e (omega (arith, sum_below-ext a f g same))
  sum_full a full (suc d) same within =
      let e : a + suc d ≡ suc (a + d) = omega arith in
      let (x, y) = within (a + d) (omega arith) (omega arith) in
      let m : suc d * full ≡ d * full + full = grind arith in
      rw e (omega (arith, x, y, m, sum_full a full d same (λ i ge lt. within i ge (omega arith))))

  sum_above :
      (m e : ℕ)
      → ((i : ℕ) → m ≤ i → f i ≡ g i)
      → sum_below (m + e) f + sum_below m g ≡ sum_below (m + e) g + sum_below m f
  sum_above m zero same = let z : m + 0 ≡ m = omega arith in rw z (omega arith)
  sum_above m (suc e) same =
      let z : m + suc e ≡ suc (m + e) = omega arith in
      rw z (omega (arith, same (m + e) (omega arith), sum_above m e same))

  -- A block of `d` indices with `full`, and one with `last`.
  pub sum_block :
      (a full last d n : ℕ)
      → a + suc d ≤ n
      → ((i : ℕ) → i < a → f i ≡ g i)
      → ((i : ℕ) → a ≤ i → i < a + d → (f i ≡ full) × (g i ≡ 0))
      → (f (a + d) ≡ last) × (g (a + d) ≡ 0)
      → ((i : ℕ) → a + suc d ≤ i → f i ≡ g i)
      → sum_below n f ≡ sum_below n g + d * full + last
  sum_block a full last d n le same within (x, y) above =
      let e : suc (a + d) + (n - suc (a + d)) ≡ n = omega arith in
      let upper = sum_above (suc (a + d)) (n - suc (a + d)) (λ i ge. above i (omega arith)) in
      omega (arith, rw e at upper, sum_full a full d same within, x, y)

-- The first of the `n` indices from `start` on that passes the test.
unfoldable pub first_index : (ℕ → Bool) → ℕ → ℕ → Option ℕ
first_index test zero start = none
first_index test (suc n) start =
    let next = first_index test n (start + 1) in if test start then some start else next

abbrev pub FirstIndex : (ℕ → Bool) → ℕ → ℕ → Option ℕ → Type 0
FirstIndex test n start none = (i : ℕ) → start ≤ i → i < start + n → test i ≡ false
FirstIndex test n start (some r) =
    (start ≤ r) × (r < start + n) × (test r ≡ true) × ((i : ℕ) → start ≤ i → i < r → test i ≡ false)

FirstIndex-later :
    (test : ℕ → Bool) (n start : ℕ) (o : Option ℕ)
    → test start ≡ false
    → FirstIndex test n (start + 1) o
    → FirstIndex test (suc n) start o
FirstIndex-later test n start none here rest = λ i le lt. later i le lt
  where
    later : (i : ℕ) → start ≤ i → i < start + suc n → test i ≡ false
    later i le lt = elim (compare_cases i start) [
      | inl e ↦ rw e here
      | inr (inl less) ↦ absurd (omega arith)
      | inr (inr more) ↦ rest i (omega arith) (omega arith)
    ]
FirstIndex-later test n start (some r) here (le, lt, hit, before) =
    (omega arith, omega arith, hit, λ i ge less. earlier i ge less)
  where
    earlier : (i : ℕ) → start ≤ i → i < r → test i ≡ false
    earlier i ge less = elim (compare_cases i start) [
      | inl e ↦ rw e here
      | inr (inl lower) ↦ absurd (omega arith)
      | inr (inr more) ↦ before i (omega arith) less
    ]

pub first_index-FirstIndex :
    (test : ℕ → Bool) (n start : ℕ) → FirstIndex test n start (first_index test n start)
unfolding first_index
first_index-FirstIndex test zero start = λ i le lt. absurd (omega arith)
first_index-FirstIndex test (suc n) start = elim (Bool-cases (test start)) [
  | inl e ↦ rw e (omega arith, omega arith, e, λ i le lt. absurd (omega arith))
  | inr e ↦ rw e (
      FirstIndex-later test n start (first_index test n (start + 1)) e
        (first_index-FirstIndex test n (start + 1)))
]
