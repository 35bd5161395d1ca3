-- ===== src/Variables.antt =====
-- src/runtime/vars.c: the variables of the debugging monitor, in two hash tables. A pointer to a
-- `struct var` is a number, and `store` says what it points to; a chain is the list of its
-- pointers, first to last. A name is the list of the bytes before its NUL.
pub mod Lookup
pub mod Define
pub mod NameHash
mod Tests
use cl.Common.{
  ℕ, zero, suc, ◌+◌, ◌-◌, ◌*◌, ◌/◌, ◌%◌, ◌^◌, bit_and, bit_xor, Bool, true, false, ◌&&◌, Option,
  none, some, List, [], ◌∷◌, ◌==◌, if◌then◌else◌, assign, Outcome, ok, ◌>>=◌, deref,
}

abbrev pub Name : Type 0
Name = List ℕ

-- `struct var`, without the links. `update_fn` is given the pointer.
pub record Var : Type 0 where
  pub obj : ℕ
  pub update_fn : Option (ℕ → ℕ)
  pub name : Name
  pub clock : ℕ
  pub map_back : Bool
  pub permanent : Bool

-- The static variables. `malloc` returns `fresh`, which it never did before.
pub record Vars : Type 0 where
  pub store : ℕ → Option Var
  pub fresh : ℕ
  pub name_hash : ℕ → List ℕ
  pub obj_hash : ℕ → List ℕ
  pub tempcntr : ℕ

-- `value` is a 64-bit word, and `1-(1<<24)` is converted to one.
unfoldable pub hash_step : ℕ → ℕ → ℕ
hash_step value c =
    let shifted = bit_xor (value * 2 % 2 ^ 64) c in
    bit_xor (bit_and shifted (2 ^ 64 + 1 - 2 ^ 24)) (shifted / 2 ^ 24)

unfoldable pub hash_bytes : ℕ → Name → ℕ
hash_bytes value [] = value
hash_bytes value (c ∷ name) = hash_bytes (hash_step value c) name

unfoldable pub hash_name : Name → ℕ
hash_name name = hash_bytes 0 name % 31

abbrev pub hash_obj : ℕ → ℕ
hash_obj obj = obj % 31

-- `strcmp(a, b) == 0`
unfoldable pub same_name : Name → Name → Bool
same_name [] [] = true
same_name [] (d ∷ b) = false
same_name (c ∷ a) [] = false
same_name (c ∷ a) (d ∷ b) = c == d && same_name a b

abbrev pub push : (ℕ → List ℕ) → ℕ → ℕ → ℕ → List ℕ
push table index var = assign table index (var ∷ table index)

-- The walk along a chain in `lookup_by_name` and `lookup_by_obj`; null is `none`.
unfoldable pub find_var : (ℕ → Option Var) → (Var → Bool) → List ℕ → Outcome (Option ℕ)
find_var store test [] = ok none
find_var store test (var ∷ chain) =
    let next = find_var store test chain in
    deref (store var) >>= λ v. if test v then ok (some var) else next

unfoldable pub lookup_by_name : Vars → Name → Outcome (Option ℕ)
lookup_by_name s name = find_var s.store (λ v. same_name v.name name) (s.name_hash (hash_name name))

unfoldable pub lookup_by_obj : Vars → ℕ → Outcome (Option ℕ)
lookup_by_obj s obj = find_var s.store (λ v. v.obj == obj) (s.obj_hash (hash_obj obj))

-- `sprintf("%d")` is given. The fields that are not yet filled are 0.
unfoldable pub make_var : (ℕ → Name) → Vars → Option Name → Bool → Vars × ℕ
make_var sprintf_d s name perm =
    let chosen : Name = elim name [ none ↦ sprintf_d s.tempcntr | some n ↦ n ] in
    let counter : ℕ = elim name [ none ↦ (s.tempcntr + 1) % 2 ^ 32 | some n ↦ s.tempcntr ] in
    let var : Var = record {
      obj = 0;
      update_fn = none;
      name = chosen;
      clock = 0;
      map_back = false;
      permanent = perm;
    } in
    (
      record s {
        store = assign s.store s.fresh (some var);
        fresh = s.fresh + 1;
        name_hash = push s.name_hash (hash_name chosen) s.fresh;
        tempcntr = counter;
      },
      s.fresh,
    )

-- `define_var` from the assignment to `var->obj` on.
unfoldable pub bind_obj : Vars → ℕ → ℕ → Outcome (Vars × ℕ)
bind_obj made var obj = deref (made.store var) >>= λ v.
    let filled = record made {
      store = assign made.store var (some (record v { obj = obj; update_fn = none }));
    } in
    lookup_by_obj filled obj >>= λ found. elim found [
      | some _ ↦ ok (filled, var)
      | none ↦ deref (filled.store var) >>= λ w. ok (
        record filled {
          store = assign filled.store var (some (record w { map_back = true }));
          obj_hash = push filled.obj_hash (hash_obj obj) var;
        },
        var,
      )
    ]

unfoldable pub define_var : (ℕ → Name) → Vars → Option Name → ℕ → Bool → Outcome (Vars × ℕ)
define_var sprintf_d s name obj perm =
    let (made, var) = make_var sprintf_d s name perm in bind_obj made var obj

unfoldable pub var_name : Vars → ℕ → Outcome Name
var_name s var = deref (s.store var) >>= λ v. ok v.name

unfoldable pub var_value : Vars → ℕ → Outcome (Vars × ℕ)
var_value s var = deref (s.store var) >>= λ v. elim v.update_fn [
  | none ↦ ok (s, v.obj)
  | some update ↦
      ok
        (record s { store = assign s.store var (some (record v { obj = update var })) }, update var)
]

unfoldable pub var_clock : Vars → ℕ → Outcome ℕ
var_clock s var = deref (s.store var) >>= λ v. ok v.clock

unfoldable pub var_setclock : Vars → ℕ → ℕ → Outcome Vars
var_setclock s var val = deref (s.store var) >>= λ v.
    ok (record s { store = assign s.store var (some (record v { clock = val })) })

-- The first loop of `flush_vars` along a chain: frees, or moves to the front of `perm`.
unfoldable pub sweep : (ℕ → Option Var) → List ℕ → List ℕ → Outcome ((ℕ → Option Var) × List ℕ)
sweep store perm [] = ok (store, perm)
sweep store perm (var ∷ chain) = deref (store var) >>= λ v. elim v.permanent [
  | true ↦ sweep store (var ∷ perm) chain
  | false ↦ sweep (assign store var none) perm chain
]

-- The chains from `index` on, whose number is `n`.
unfoldable pub sweep_buckets :
    ℕ → ℕ → (ℕ → List ℕ) → (ℕ → Option Var) → List ℕ → Outcome ((ℕ → Option Var) × List ℕ)
sweep_buckets zero index name_hash store perm = ok (store, perm)
sweep_buckets (suc n) index name_hash store perm =
    sweep store perm (name_hash index) >>= λ r. sweep_buckets n (index + 1) name_hash r.0 r.1

-- The last loop of `flush_vars`.
unfoldable pub restore : Vars → List ℕ → Outcome Vars
restore s [] = ok s
restore s (var ∷ perm) = deref (s.store var) >>= λ v.
    restore
      (record s {
        name_hash = push s.name_hash (hash_name v.name) var;
        obj_hash = if v.map_back then push s.obj_hash (hash_obj v.obj) var else s.obj_hash;
      })
      perm

unfoldable pub flush_vars : Vars → Outcome Vars
flush_vars s = sweep_buckets 31 0 s.name_hash s.store [] >>= λ r.
    restore (record s { store = r.0; name_hash = λ i. []; obj_hash = λ i. []; tempcntr = 1 }) r.1
