-- ===== src/Variables/Lookup.antt =====
-- The walks along chains.
use cl.Common.{
  assign, ℕ, ◌≤◌, ◌≡◌, refl, arith, Bool, true, false, Bool-cases, Option, none, some, inl, inr,
  List, [], ◌∷◌, ◌==◌, Returns, Returns-mono,
}
use cl.Variables.{Var, Vars, Name, hash_name, hash_obj, same_name, find_var}

-- Every pointer of the chain points to a variable with `P`.
abbrev pub AllPoint : (ℕ → Option Var) → (Var → Type 0) → List ℕ → Type 0
AllPoint store P [] = Unit
AllPoint store P (var ∷ chain) = ((v : Var) × (store var ≡ some v) × P v) × AllPoint store P chain

-- Each variable is in the chains of its hash values, and `malloc` never returned a later pointer.
pub record IsValid (s : Vars) : Type 0 where
  pub names : (b : ℕ) → AllPoint s.store (λ v. hash_name v.name ≡ b) (s.name_hash b)
  pub objs : (b : ℕ) → AllPoint s.store (λ v. hash_obj v.obj ≡ b) (s.obj_hash b)
  pub unused : (var : ℕ) → s.fresh ≤ var → s.store var ≡ none

-- What a walk may return.
abbrev pub Found : (ℕ → Option Var) → (Var → Bool) → List ℕ → Option ℕ → Type 0
Found store test chain none = AllPoint store (λ v. test v ≡ false) chain
Found store test chain (some var) = (v : Var) × (store var ≡ some v) × (test v ≡ true)

Found-cons :
    (store : ℕ → Option Var) (test : Var → Bool) (var : ℕ) (chain : List ℕ) (v : Var) (o : Option ℕ)
    → store var ≡ some v
    → test v ≡ false
    → Found store test chain o
    → Found store test (var ∷ chain) o
Found-cons store test var chain v none e f rest = ((v, e, f), rest)
Found-cons store test var chain v (some x) e f rest = rest

pub find_var-Found :
    (store : ℕ → Option Var) (test : Var → Bool) (P : Var → Type 0) (chain : List ℕ)
    → AllPoint store P chain
    → Returns (find_var store test chain) (Found store test chain)
unfolding find_var
find_var-Found store test P [] _ = tt
find_var-Found store test P (var ∷ chain) ((v, e, p), rest) = rw e (elim (Bool-cases (test v)) [
  | inl hit ↦ rw hit (v, e, hit)
  | inr miss ↦ rw miss (
      Returns-mono _ _ _ (λ o. Found-cons store test var chain v o e miss)
        (find_var-Found store test P chain rest))
])

module _ (store : ℕ → Option Var) (fresh : ℕ) (unused : store fresh ≡ none) (x : Option Var) where
  -- A pointer in use is not the new one.
  pub kept : (var : ℕ) (v : Var) → store var ≡ some v → assign store fresh x var ≡ some v
  kept var v e = elim (Bool-cases (var == fresh)) [
    | inl same ↦ absurd (ground (arith, unused, e))
    | inr other ↦ rw other e
  ]

  pub AllPoint-assign :
      (P : Var → Type 0) (chain : List ℕ)
      → AllPoint store P chain
      → AllPoint (assign store fresh x) P chain
  AllPoint-assign P [] _ = tt
  AllPoint-assign P (var ∷ chain) ((v, e, p), rest) =
      ((v, kept var v e, p), AllPoint-assign P chain rest)

  pub find_var-assign :
      (test : Var → Bool) (P : Var → Type 0) (chain : List ℕ)
      → AllPoint store P chain
      → find_var (assign store fresh x) test chain ≡ find_var store test chain
  unfolding find_var
  find_var-assign test P [] _ = refl
  find_var-assign test P (var ∷ chain) ((v, e, p), rest) =
      rw (kept var v e, e, find_var-assign test P chain rest) refl

pub same_name-eq : (a b : Name) → same_name a b ≡ true → a ≡ b
unfolding same_name
same_name-eq [] [] h = refl
same_name-eq [] (d ∷ b) h = cc
same_name-eq (c ∷ a) [] h = cc
same_name-eq (c ∷ a) (d ∷ b) h = ground (arith, same_name-eq a b)

pub same_name_self : (a : Name) → same_name a a ≡ true
unfolding same_name
same_name_self [] = refl
same_name_self (c ∷ a) = ground (arith, same_name_self a)
