-- ===== src/Variables/Define.antt =====
-- `define_var` in valid tables.
use cl.Common.{
  assign, assign-assign, assign-same, ℕ, ◌+◌, ◌%◌, ◌^◌, ◌≤◌, ◌≡◌, ◌≢◌, refl, ap, ◌∙◌, arith, Bool,
  true, false, Bool-cases, Option, none, some, inl, inr, List, ◌∷◌, ◌==◌, if◌then◌else◌, Outcome,
  ok, ◌>>=◌, Returns, Returns-ok,
}
use cl.Variables.{
  Var, Vars, Name, hash_name, hash_obj, push, find_var, lookup_by_name, lookup_by_obj, make_var,
  bind_obj, define_var, var_value,
}
use cl.Variables.Lookup.{
  AllPoint, IsValid, Found, find_var-Found, kept, AllPoint-assign, find_var-assign, same_name-eq,
  same_name_self,
}

abbrev pub variable : ℕ → Name → Bool → Bool → Var
variable obj name back perm = record {
  obj = obj;
  update_fn = none;
  name = name;
  clock = 0;
  map_back = back;
  permanent = perm;
}

-- The tables with one more variable under its name.
abbrev pub entered : Vars → Name → ℕ → Var → Vars
entered s name counter v = record s {
  store = assign s.store s.fresh (some v);
  fresh = s.fresh + 1;
  name_hash = push s.name_hash (hash_name name) s.fresh;
  tempcntr = counter;
}

-- The tables after a definition: `back` says that the variable entered the table of objects.
abbrev pub extended : Vars → Name → ℕ → ℕ → Bool → Bool → Vars
extended s name counter obj perm back =
    record (entered s name counter (variable obj name back perm)) {
      obj_hash = if back then push s.obj_hash (hash_obj obj) s.fresh else s.obj_hash;
    }

abbrev pub is_none {ℓ} : {A : Type ℓ} → Option A → Bool
is_none none = true
is_none (some a) = false

abbrev pub first_of {ℓ} : {A : Type ℓ} → Option A → A → A
first_of none b = b
first_of (some a) b = a

abbrev pub chosen_name : (ℕ → Name) → Vars → Option Name → Name
chosen_name sprintf_d s none = sprintf_d s.tempcntr
chosen_name sprintf_d s (some n) = n

abbrev pub next_counter : Vars → Option Name → ℕ
next_counter s none = (s.tempcntr + 1) % 2 ^ 32
next_counter s (some n) = s.tempcntr

module _ (s : Vars) (valid : IsValid s) where
  unused_here : s.store s.fresh ≡ none
  unused_here = valid.unused s.fresh (omega arith)

  pub lookup_by_obj_returns :
      (obj : ℕ)
      → Returns
          (lookup_by_obj s obj)
          (Found s.store (λ v. v.obj == obj) (s.obj_hash (hash_obj obj)))
  unfolding lookup_by_obj
  lookup_by_obj_returns obj = find_var-Found s.store _ _ _ (valid.objs (hash_obj obj))

  module _ (name : Name) (counter obj : ℕ) (perm : Bool) where
    self : (s.fresh == s.fresh) ≡ true
    self = ground arith

    abbrev filled_store : ℕ → Option Var
    filled_store =
        assign (assign s.store s.fresh (some (variable 0 name false perm))) s.fresh
          (some (variable obj name false perm))

    walk :
        find_var filled_store (λ v. v.obj == obj) (s.obj_hash (hash_obj obj))
        ≡ find_var s.store (λ v. v.obj == obj) (s.obj_hash (hash_obj obj))
    walk =
        ap (λ f. find_var f (λ v. v.obj == obj) (s.obj_hash (hash_obj obj)))
          (assign-assign s.store s.fresh _ _)
        ∙ find_var-assign s.store s.fresh unused_here _ _ _ _ (valid.objs (hash_obj obj))

    abbrev with_store : Bool → (ℕ → Option Var) → Outcome (Vars × ℕ)
    with_store back f = ok (record (extended s name counter obj perm back) { store = f }, s.fresh)

    bound :
        (o : Option ℕ)
        → lookup_by_obj s obj ≡ ok o
        → bind_obj (entered s name counter (variable 0 name false perm)) s.fresh obj
          ≡ ok (extended s name counter obj perm (is_none o), s.fresh)
    unfolding bind_obj lookup_by_obj
    bound none e =
        rw (self, walk ∙ e, self)
          (ap (with_store true) (assign-assign _ s.fresh _ _ ∙ assign-assign s.store s.fresh _ _))
    bound (some q) e =
        rw (self, walk ∙ e) (ap (with_store false) (assign-assign s.store s.fresh _ _))

  -- `define_var` returns the new pointer and the tables `extended`.
  define_var-extended :
      (sprintf_d : ℕ → Name) (name : Option Name) (obj : ℕ) (perm : Bool) (o : Option ℕ)
      → lookup_by_obj s obj ≡ ok o
      → define_var sprintf_d s name obj perm
        ≡ ok (
          extended s (chosen_name sprintf_d s name) (next_counter s name) obj perm (is_none o),
          s.fresh,
        )
  unfolding define_var make_var
  define_var-extended sprintf_d none obj perm o e = bound _ _ obj perm o e
  define_var-extended sprintf_d (some n) obj perm o e = bound _ _ obj perm o e

  module _ (name : Name) (counter obj : ℕ) (perm back : Bool) where
    abbrev after : Vars
    after = extended s name counter obj perm back

    chain-AllPoint :
        (P : ℕ → Var → Type 0) (h : ℕ) (table : ℕ → List ℕ)
        → ((b : ℕ) → AllPoint s.store (P b) (table b))
        → P h (variable obj name back perm)
        → (b : ℕ) → AllPoint after.store (P b) (push table h s.fresh b)
    chain-AllPoint P h table all p b = elim (Bool-cases (b == h)) [
      | inl e ↦
          let same : b ≡ h = ground arith in
          rw (same, assign-same {A = List ℕ} (λ i. table i) h (s.fresh ∷ table h))
            (
              (_, assign-same s.store s.fresh _, p),
              AllPoint-assign s.store s.fresh unused_here _ _ _ (all h),
            )
      | inr e ↦ rw e (AllPoint-assign s.store s.fresh unused_here _ _ _ (all b))
    ]

    -- The walk along a chain that starts with the new variable.
    hit :
        (test : Var → Bool) (h : ℕ) (table : ℕ → List ℕ)
        → test (variable obj name back perm) ≡ true
        → find_var after.store test (push table h s.fresh h) ≡ ok (some s.fresh)
    unfolding find_var
    hit test h table e =
        rw
          (
            assign-same {A = List ℕ} (λ i. table i) h (s.fresh ∷ table h),
            assign-same s.store s.fresh (some (variable obj name back perm)),
            e,
          )
          refl

    miss :
        (test : Var → Bool) (P : ℕ → Var → Type 0) (h : ℕ) (table : ℕ → List ℕ)
        → ((b : ℕ) → AllPoint s.store (P b) (table b))
        → test (variable obj name back perm) ≡ false
        → (b : ℕ)
        → find_var after.store test (push table h s.fresh b) ≡ find_var s.store test (table b)
    unfolding find_var
    miss test P h table all e b = elim (Bool-cases (b == h)) [
      | inl same ↦
          let f : b ≡ h = ground arith in
          rw
            (
              f,
              assign-same {A = List ℕ} (λ i. table i) h (s.fresh ∷ table h),
              assign-same s.store s.fresh (some (variable obj name back perm)),
              e,
            )
            (find_var-assign s.store s.fresh unused_here _ test _ (table h) (all h))
      | inr other ↦
          rw other (find_var-assign s.store s.fresh unused_here _ test _ (table b) (all b))
    ]

    pub named : lookup_by_name after name ≡ ok (some s.fresh)
    unfolding lookup_by_name
    named = hit _ (hash_name name) s.name_hash (same_name_self name)

    pub other_names :
        (other : Name) → name ≢ other → lookup_by_name after other ≡ lookup_by_name s other
    unfolding lookup_by_name
    other_names other diff =
        miss _ _ (hash_name name) s.name_hash valid.names
          (ground (arith, same_name-eq name other, diff)) (hash_name other)

    later_unused : (var : ℕ) → s.fresh + 1 ≤ var → after.store var ≡ none
    later_unused var le =
        let e : (var == s.fresh) ≡ false = ground arith in rw e (valid.unused var (omega arith))

  pub extended-IsValid :
      (name : Name) (counter obj : ℕ) (perm back : Bool)
      → IsValid (extended s name counter obj perm back)
  extended-IsValid name counter obj perm true = record {
    names =
        chain-AllPoint name counter obj perm true (λ b v. hash_name v.name ≡ b) _ _ valid.names
          refl;
    objs =
        chain-AllPoint name counter obj perm true (λ b v. hash_obj v.obj ≡ b) _ _ valid.objs refl;
    unused = later_unused name counter obj perm true;
  }
  extended-IsValid name counter obj perm false = record {
    names =
        chain-AllPoint name counter obj perm false (λ b v. hash_name v.name ≡ b) _ _ valid.names
          refl;
    objs = λ b. AllPoint-assign s.store s.fresh unused_here _ _ _ (valid.objs b);
    unused = later_unused name counter obj perm false;
  }

  pub other_objs :
      (name : Name) (counter obj : ℕ) (perm back : Bool) (other : ℕ)
      → obj ≢ other
      → lookup_by_obj (extended s name counter obj perm back) other ≡ lookup_by_obj s other
  unfolding lookup_by_obj
  other_objs name counter obj perm true other diff =
      miss name counter obj perm true _ _ (hash_obj obj) s.obj_hash valid.objs
        (ground (arith, diff)) (hash_obj other)
  other_objs name counter obj perm false other diff =
      find_var-assign s.store s.fresh unused_here _ _ _ _ (valid.objs (hash_obj other))

  -- The table of objects keeps its variable for an object, and else gets the new one.
  pub mapped :
      (name : Name) (counter obj : ℕ) (perm : Bool) (o : Option ℕ)
      → lookup_by_obj s obj ≡ ok o
      → lookup_by_obj (extended s name counter obj perm (is_none o)) obj
        ≡ ok (some (first_of o s.fresh))
  unfolding lookup_by_obj
  mapped name counter obj perm none e =
      hit name counter obj perm true _ (hash_obj obj) s.obj_hash (ground arith)
  mapped name counter obj perm (some q) e =
      find_var-assign s.store s.fresh unused_here _ _ _ _ (valid.objs (hash_obj obj)) ∙ e

-- What a definition owes.
pub record Defined (s : Vars) (name : Name) (obj : ℕ) (perm : Bool) (r : Vars × ℕ) : Type 0 where
  pub valid : IsValid r.0
  pub pointer : s.store r.1 ≡ none
  pub kept : (var : ℕ) (v : Var) → s.store var ≡ some v → r.0.store var ≡ some v
  pub named : lookup_by_name r.0 name ≡ ok (some r.1)
  pub other_names :
      (other : Name) → name ≢ other → lookup_by_name r.0 other ≡ lookup_by_name s other
  pub value : var_value r.0 r.1 ≡ ok (r.0, obj)
  pub mapped : lookup_by_obj r.0 obj ≡ (lookup_by_obj s obj >>= λ o. ok (some (first_of o r.1)))
  pub other_objs : (other : ℕ) → obj ≢ other → lookup_by_obj r.0 other ≡ lookup_by_obj s other

extended-Defined :
    (s : Vars) (valid : IsValid s) (name : Name) (counter obj : ℕ) (perm : Bool) (o : Option ℕ)
    → lookup_by_obj s obj ≡ ok o
    → Defined s name obj perm (extended s name counter obj perm (is_none o), s.fresh)
unfolding var_value
extended-Defined s valid name counter obj perm o e = record {
  valid = extended-IsValid s valid name counter obj perm (is_none o);
  pointer = unused_here s valid;
  kept = λ var v f. kept s.store s.fresh (unused_here s valid) _ var v f;
  named = named s valid name counter obj perm (is_none o);
  other_names = other_names s valid name counter obj perm (is_none o);
  value = rw (assign-same s.store s.fresh (some (variable obj name (is_none o) perm))) refl;
  mapped = rw e (mapped s valid name counter obj perm o e);
  other_objs = other_objs s valid name counter obj perm (is_none o);
}

-- In valid tables, `define_var` returns a new variable, in valid tables that keep the others. Its
-- name leads to it, and hides an older variable of that name; other names lead where they led.
-- The object leads to the variable that it led to, if there was one, and else to the new one.
pub define_var-Defined :
    (s : Vars) (sprintf_d : ℕ → Name) (name : Option Name) (obj : ℕ) (perm : Bool)
    → IsValid s
    → Returns
        (define_var sprintf_d s name obj perm)
        (Defined s (chosen_name sprintf_d s name) obj perm)
define_var-Defined s sprintf_d name obj perm valid =
    let (o, e, _) = Returns-ok _ _ (lookup_by_obj_returns s valid obj) in
    rw (define_var-extended s valid sprintf_d name obj perm o e)
      (extended-Defined s valid (chosen_name sprintf_d s name) (next_counter s name) obj perm o e)
