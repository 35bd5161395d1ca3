-- ===== src/Hopscotch/Get.antt =====
-- The values that a valid table gives.
use cl.Common.{
  ℕ, ◌/◌, ◌%◌, ◌<◌, ◌≡◌, ◌≢◌, ◌⊎◌, refl, ap, sym, ◌∙◌, arith, inl, inr, Option, none, some, Outcome,
  ok, Returns, Returns-mono, Returns->>=, get_or-set, length, ◌^◌,
}
use cl.Hopscotch.{HopscotchTable, set_val, get_val, desired_index, hash}
use cl.Hopscotch.Insert.{VectorFunctions, hopscotch_insert}
use cl.Hopscotch.Lookup.{find_cell, hopscotch_get, hopscotch_put}
use cl.Hopscotch.Cells.{Present}
use cl.Hopscotch.Table.{key_at, IsValid, desired_index-le}
use cl.Hopscotch.Contains.{Located, read_mask, probe_groups-Located}

-- The cells are probed four at a time.
pub find_cell-Located :
    (ht : HopscotchTable) (key : ℕ)
    → IsValid ht
    → ht.compare_fun ≡ none
    → ht.hop_range % 8 ≡ 0
    → key ≢ 0
    → Returns (find_cell ht key) (Located ht key)
unfolding find_cell
find_cell-Located ht key valid plain eights nonzero =
    rw (read_mask ht key valid nonzero, plain)
      (probe_groups-Located ht key valid nonzero 4 (ht.hop_range / 4) 8 (omega arith)
        (omega (arith, valid.word)))

-- What `hopscotch_get` may return: `i` is the only cell with the key.
abbrev pub Got : HopscotchTable → ℕ → ℕ → ℕ → Type 0
Got ht key notfound value =
    (((i : ℕ) → key_at ht i ≢ key) × (value ≡ notfound))
    ⊎ ((i : ℕ) × (key_at ht i ≡ key)
        × ((j : ℕ) → key_at ht j ≡ key → j ≡ i)
        × (value ≡ get_val ht i))

-- For a key other than 0, in a valid hopscotch table without a comparison function and with a hop
-- range that is a multiple of eight, hopscotch_get returns the value of the only cell with the
-- key, or notfound if there is none.
pub hopscotch_get-Got :
    (ht : HopscotchTable) (key notfound : ℕ)
    → IsValid ht
    → ht.compare_fun ≡ none
    → ht.hop_range % 8 ≡ 0
    → key ≢ 0
    → Returns (hopscotch_get ht key notfound) (Got ht key notfound)
unfolding hopscotch_get
hopscotch_get-Got ht key notfound valid plain eights nonzero =
    Returns->>= (Located ht key) (Got ht key notfound) _ _
      (find_cell-Located ht key valid plain eights nonzero) answer
  where
    unique : (i j : ℕ) → key_at ht i ≡ key → key_at ht j ≡ key → j ≡ i
    unique i j e f = valid.integrity.once j i (λ z. nonzero (sym f ∙ z)) (f ∙ sym e)

    answer :
        (o : Option ℕ)
        → Located ht key o
        → Returns
            (ok (elim o as (λ _. ℕ) [ none ↦ notfound | some index ↦ get_val ht index ]))
            (Got ht key notfound)
    answer none absent = inl (absent, refl)
    answer (some i) e = inr (i, e, λ j f. unique i j e f, refl)

set_val-IsValid : (ht : HopscotchTable) (i val : ℕ) → IsValid ht → IsValid (set_val ht i val)
unfolding set_val desired_index hash
set_val-IsValid ht i val valid = record {
  cells = valid.cells;
  bins = valid.bins;
  room = valid.room;
  word = valid.word;
  integrity = valid.integrity;
}

-- An 8-byte value is read back as it was stored.
get_val-set_val :
    (ht : HopscotchTable) (i val : ℕ)
    → ht.value_size ≡ 8
    → i < length ht.values
    → val < 2 ^ 64
    → get_val (set_val ht i val) i ≡ val
unfolding get_val set_val
get_val-set_val ht i val eight lt small =
    rw eight (ground (arith, get_or-set ht.values i i (val % 2 ^ 64) 0 lt))

module _ (ht : HopscotchTable) (key val : ℕ) (valid : IsValid ht) (plain : ht.compare_fun ≡ none)
    (eights : ht.hop_range % 8 ≡ 0) (nonzero : key ≢ 0) (eight : ht.value_size ≡ 8)
    (values : length ht.values ≡ length ht.keys) (small : val < 2 ^ 64) where
  in_range : (i : ℕ) → key_at ht i ≡ key → i < length ht.values
  in_range i e =
      let near = valid.integrity.near i (λ z. nonzero (sym e ∙ z)) in
      omega (arith, near.1, desired_index-le ht (key_at ht i), valid.cells, values)

  value_after :
      (notfound i x : ℕ) → key_at ht i ≡ key → Got (set_val ht i val) key notfound x → x ≡ val
  unfolding set_val
  value_after notfound i x e (inl (absent, _)) = absurd (absent i e)
  value_after notfound i x e (inr (j, f, only, g)) =
      g
      ∙ ap (get_val (set_val ht i val)) (sym (only i e))
      ∙ get_val-set_val ht i val eight (in_range i e) small

  read_after :
      (notfound i : ℕ)
      → key_at ht i ≡ key
      → Returns (hopscotch_get (set_val ht i val) key notfound) (λ x. x ≡ val)
  unfolding set_val
  read_after notfound i e =
      Returns-mono _ _ _ (λ x. value_after notfound i x e)
        (hopscotch_get-Got (set_val ht i val) key notfound (set_val-IsValid ht i val valid) plain
          eights nonzero)

-- For a key other than 0 that is in a valid hopscotch table without a comparison function, with a
-- hop range that is a multiple of eight and with 8-byte values, one for each cell, hopscotch_put
-- of a 64-bit word returns 0 and a valid table with the same keys, from which hopscotch_get
-- returns that word.
pub hopscotch_put-hopscotch_get :
    (v : VectorFunctions) (tries : ℕ) (ht : HopscotchTable) (key val notfound : ℕ)
    → IsValid ht
    → ht.compare_fun ≡ none
    → ht.hop_range % 8 ≡ 0
    → key ≢ 0
    → ht.value_size ≡ 8
    → length ht.values ≡ length ht.keys
    → val < 2 ^ 64
    → Present (key_at ht) key
    → Returns (hopscotch_put v tries ht key val) (λ r.
      (r.1 ≡ 0)
      × IsValid r.0
      × (r.0.keys ≡ ht.keys)
      × Returns (hopscotch_get r.0 key notfound) (λ x. x ≡ val))
unfolding hopscotch_put set_val
hopscotch_put-hopscotch_get v tries ht key val notfound valid plain eights nonzero eight values
      small (i, e) =
    Returns->>= (Located ht key) _ _ _ (find_cell-Located ht key valid plain eights nonzero)
      replaced
  where
    replaced :
        (o : Option ℕ)
        → Located ht key o
        → Returns
            (elim o as (λ _. Outcome (HopscotchTable × ℕ)) [
              | none ↦ hopscotch_insert v tries ht key val
              | some index ↦ ok (set_val ht index val, 0)
            ])
            (λ r.
              (r.1 ≡ 0)
              × IsValid r.0
              × (r.0.keys ≡ ht.keys)
              × Returns (hopscotch_get r.0 key notfound) (λ x. x ≡ val))
    replaced none absent = absurd (absent i e)
    replaced (some j) f = (
      refl,
      set_val-IsValid ht j val valid,
      refl,
      read_after ht key val valid plain eights nonzero eight values small notfound j f,
    )
