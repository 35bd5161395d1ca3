-- ===== src/Gencgc/Collection/Ends.antt =====
-- The ends of a collection in src/runtime/gencgc.c, where the move of the survivors may lose.
use cl.Common.{ℕ, ◌≡◌, Bool, none, Outcome, ok, lost, fault, ◌>>=◌, Returns}
use cl.Gencgc.Balance.{IsBalanced}
use cl.Gencgc.Collection.{Collector, Policy}

module _ (p : Policy) where
  -- The move of the survivors loses on a heap with true accounts.
  pub record MoveLost : Type 0 where
    pub gen : ℕ
    pub raise : Bool
    pub collector : Collector
    pub true_accounts : IsBalanced p.space collector.heap
    pub fails : p.move_survivors gen raise collector ≡ none

  -- It returns such a result, or it loses because a move of survivors did.
  abbrev pub Ends {ℓ} : {A : Type ℓ} → Outcome A → (A → Type 0) → Type 0
  Ends (ok x) P = P x
  Ends lost P = MoveLost
  Ends fault P = ⊥

  pub Ends->>= {ℓ κ} :
      {A : Type ℓ} {B : Type κ} (P : A → Type 0) (Q : B → Type 0) (m : Outcome A)
      (f : A → Outcome B)
      → Ends m P
      → ((a : A) → P a → Ends (f a) Q)
      → Ends (m >>= f) Q
  Ends->>= P Q (ok a) f e k = k a e
  Ends->>= P Q lost f e k = e
  Ends->>= P Q fault f e k = absurd e

  pub Returns-Ends {ℓ} : {A : Type ℓ} (P : A → Type 0) (m : Outcome A) → Returns m P → Ends m P
  Returns-Ends P (ok a) r = r
  Returns-Ends P lost r = absurd r
  Returns-Ends P fault r = absurd r
