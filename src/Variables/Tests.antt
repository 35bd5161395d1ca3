-- ===== src/Variables/Tests.antt =====
-- Concrete runs of the tables of variables, and the theorems at concrete inputs.
use cl.Common.{
  ℕ, ◌+◌, ◌%◌, ◌≡◌, refl, arith, true, false, none, some, [], ◌∷◌, Outcome, ok, ◌>>=◌, Returns,
}
use cl.Variables.{
  Name, Vars, hash_step, hash_bytes, hash_name, same_name, find_var, lookup_by_name, lookup_by_obj,
  make_var, bind_obj, define_var, var_setclock, var_clock, sweep, sweep_buckets, restore,
  flush_vars,
}
use cl.Variables.NameHash.{hash_name_parity}
use cl.Variables.Lookup.{IsValid}
use cl.Variables.Define.{Defined, define_var-Defined}

-- One digit is enough here.
abbrev one_digit : ℕ → Name
one_digit n = (48 + n % 10) ∷ []

abbrev no_vars : Vars
no_vars = record {
  store = λ i. none;
  fresh = 0;
  name_hash = λ i. [];
  obj_hash = λ i. [];
  tempcntr = 1;
}

abbrev two_vars : Outcome Vars
two_vars = define_var one_digit no_vars (some (110 ∷ 105 ∷ 108 ∷ [])) 0x100 true >>= λ r.
    define_var one_digit r.0 none 0x200 false >>= λ q. ok q.0

flush_keeps_permanent :
    (two_vars >>= λ s. flush_vars s >>= λ t. lookup_by_name t (110 ∷ 105 ∷ 108 ∷ [])) ≡ ok (some 0)
unfolding define_var bind_obj make_var lookup_by_obj find_var flush_vars sweep_buckets sweep
    hash_name hash_bytes hash_step restore lookup_by_name same_name var_setclock var_clock
flush_keeps_permanent = refl

flush_drops_temporary : (two_vars >>= λ s. flush_vars s >>= λ t. lookup_by_obj t 0x200) ≡ ok none
unfolding define_var bind_obj make_var lookup_by_obj find_var flush_vars sweep_buckets sweep
    hash_name hash_bytes hash_step restore lookup_by_name same_name var_setclock var_clock
flush_drops_temporary = refl

clock : (two_vars >>= λ s. var_setclock s 1 7 >>= λ t. var_clock t 1) ≡ ok 7
unfolding define_var bind_obj make_var lookup_by_obj find_var flush_vars sweep_buckets sweep
    hash_name hash_bytes hash_step restore lookup_by_name same_name var_setclock var_clock
clock = refl

no_vars-IsValid : IsValid no_vars
no_vars-IsValid = record { names = λ b. tt; objs = λ b. tt; unused = λ var le. refl }

define_var-Defined_example :
    Returns (define_var one_digit no_vars none 0x100 true) (Defined no_vars (49 ∷ []) 0x100 true)
define_var-Defined_example = define_var-Defined no_vars one_digit none 0x100 true no_vars-IsValid

hash_name_parity_example : hash_name (110 ∷ 105 ∷ 108 ∷ []) ≡ 0
hash_name_parity_example =
    hash_name_parity (110 ∷ 105 ∷ []) 108 (omega arith, (omega arith, tt)) (omega arith)
