-- ===== src/Hopscotch/Place.antt =====
-- Insertion into a valid table: it never faults, keeps the table valid, and adds just the key.
use cl.Common.{
  ℕ, zero, suc, ◌+◌, ◌-◌, ◌≤◌, ◌<◌, ◌≡◌, ◌≢◌, sym, ◌∙◌, arith, Option, none, some, inl, inr,
  Bool-cases, ltb, length, Outcome, ok, ◌>>=◌, Returns, Returns-mono, Returns->>=,
}
use cl.Hopscotch.{HopscotchTable, desired_index, Attempt, full, occupy, move_victim}
use cl.Hopscotch.Insert.{last_bin, place}
use cl.Hopscotch.Table.{
  key_at, owner_at, IsValid, vacated, occupy-eq-occupied, vacated_key, move_victim-eq-vacated,
}
use mathlib.Core.Path.{subst}
use cl.Hopscotch.Victim.{Victim, find_victim-Victim}
use cl.Hopscotch.Attempts.{
  Rearranged, Tried, Tried-trans, Rearranged-self, occupied-Inserted, vacated-Rearranged,
}

module _ (key val : ℕ) (nonzero : key ≢ 0) where
  -- What a round of `place` needs.
  pub record Ready (ht : HopscotchTable) (desired free : ℕ) : Type 0 where
    pub valid : IsValid ht
    pub bin : desired_index ht key ≡ desired
    pub new : (i : ℕ) → key_at ht i ≢ key
    pub empty : key_at ht free ≡ 0
    pub inside : free < length ht.keys
    pub right : desired ≤ free

  after_move :
      (ht : HopscotchTable) (desired b v d : ℕ)
      → Ready ht desired (b + d)
      → owner_at ht b v ≡ 1
      → v < d
      → d < ht.hop_range
      → b ≤ ht.mask
      → desired ≤ b
      → Ready (vacated ht (b + d) b v) desired (b + v)
  after_move ht desired b v d r owned before close bin le = record {
    valid = moved.valid;
    bin = moved.same.bin key ∙ r.bin;
    new = λ i e. let (j, f) = moved.nothing_else key nonzero (i, e) in r.new j f;
    empty =
        sym (vacated_key r.valid b v d owned before close bin r.inside r.empty (b + v))
        ∙ ground arith;
    inside =
        omega (
          arith, moved.valid.cells, moved.same.mask, moved.same.hop_range, r.valid.cells, r.inside,
        );
    right = omega arith;
  }
    where
      moved : Rearranged ht (vacated ht (b + d) b v)
      moved = vacated-Rearranged r.valid b v d owned before close bin r.inside r.empty

  pub near_step :
      (ht : HopscotchTable) (desired free : ℕ)
      → Ready ht desired free
      → free < desired + ht.hop_range
      → Returns (occupy ht free desired key val) (Tried ht key)
  near_step ht desired free r close =
      let reach : desired_index ht key ≤ free = omega (arith, r.bin, r.right) in
      let near : free < desired_index ht key + ht.hop_range = omega (arith, r.bin) in
      rw (← r.bin, occupy-eq-occupied r.valid free key val nonzero r.new r.empty reach near)
        (occupied-Inserted r.valid free key val nonzero r.new r.empty reach near)

  abbrev pub PlacesAll : ℕ → Type 0
  PlacesAll fuel =
      (ht : HopscotchTable) (desired free : ℕ)
      → Ready ht desired free
      → free < fuel
      → Returns (place fuel ht desired key val free) (Tried ht key)

  moved_step :
      (fuel : ℕ) (ht : HopscotchTable) (desired free b v d : ℕ)
      → PlacesAll fuel
      → free ≡ b + d
      → Ready ht desired free
      → owner_at ht b v ≡ 1
      → v < d
      → d < ht.hop_range
      → b ≤ ht.mask
      → desired ≤ b
      → b + v < fuel
      → Returns
          (move_victim ht free b v >>= λ t. place fuel t desired key val (b + v))
          (Tried ht key)
  moved_step fuel ht desired free b v d rest e ready owned before close bin le more =
      let r : Ready ht desired (b + d) = subst (λ f. Ready ht desired f) e ready in
      rw (e, move_victim-eq-vacated r.valid b v d owned before close bin r.inside r.empty)
        (Returns-mono _ _ _
          (λ a.
            Tried-trans ht _ key a
              (vacated-Rearranged r.valid b v d owned before close bin r.inside r.empty))
          (rest _ desired (b + v) (after_move ht desired b v d r owned before close bin le) more))

  module _ (ht : HopscotchTable) (desired free : ℕ) (r : Ready ht desired free)
      (far : desired + ht.hop_range ≤ free) where
    low : ℕ
    low = free - (ht.hop_range - 1)

    rounds : ℕ
    rounds = last_bin ht free + 1 - low

    rounds_end : (low + rounds ≤ ht.mask + 1) × (low + rounds ≤ free) × (free < low + 33)
    unfolding low rounds
    rounds_end = ground (arith, r.valid.cells, r.valid.room, r.valid.word, r.inside)

    relocation_step :
        (fuel : ℕ) (o : Option (ℕ × ℕ))
        → PlacesAll fuel
        → free < suc fuel
        → Victim ht free low rounds o
        → Returns
            (elim o as (λ _. Outcome Attempt) [
              | none ↦ ok (full ht)
              | some (bin, victim) ↦ move_victim ht free bin victim >>= λ t.
                  place fuel t desired key val (bin + victim)
            ])
            (Tried ht key)
    relocation_step fuel none rest more v = Rearranged-self ht r.valid
    relocation_step fuel (some (b, x)) rest more (p, q, owned, before) =
        let (e, f, g) = rounds_end in
        moved_step fuel ht desired free b x (free - b) rest (omega arith) r owned (omega arith)
          (unfold low in omega (arith, r.valid.room)) (omega arith)
          (unfold low in omega (arith, r.valid.room)) (omega arith)

  pub place-Tried : (fuel : ℕ) → PlacesAll fuel
  unfolding place low rounds
  place-Tried zero ht desired free r h = absurd (omega arith)
  place-Tried (suc fuel) ht desired free r h =
      elim (Bool-cases (ltb (free - desired) ht.hop_range)) [
        | inl near ↦ rw near (near_step ht desired free r (ground (arith, r.right)))
        | inr far ↦
            let away : desired + ht.hop_range ≤ free = ground (arith, r.right) in
            let (e, f, g) = rounds_end ht desired free r away in
            rw far (
              Returns->>=
                (Victim ht free (low ht desired free r away) (rounds ht desired free r away))
                (Tried ht key) _ _
                (find_victim-Victim ht _ free _ (omega (arith, r.valid.bins)) f g)
                (λ o v. relocation_step ht desired free r away fuel o (place-Tried fuel) h v))
      ]
