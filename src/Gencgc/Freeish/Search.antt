-- ===== src/Gencgc/Freeish/Search.antt =====
-- The rounds of `gc_find_freeish_pages`: the best run so far, and all runs of free pages.
use cl.Common.{
  ℕ, zero, suc, ◌+◌, ◌-◌, ◌*◌, ◌≤◌, ◌<◌, ◌≡◌, refl, arith, ◌⊎◌, inl, inr, Bool, true, false, not,
  ◌&&◌, Bool-cases, ltb, leb, ◌==◌, if◌then◌else◌, Returns, ltb→lt,
}
use native.Mathlib.Nat.{mul-le-mul_right}
use cl.Gencgc.{
  GenSpace, DynamicSpace, Most, Candidate, start, too_few, unusable, is_free, bytes_used,
  page_extensible_p, is_code, grow, more, candidate, freeish_rounds,
}
use cl.Gencgc.Freeish.Grow.{AllFree, Grown, grow-Grown}

module _ (s : GenSpace) (h : DynamicSpace) (restart goal : ℕ) (multi_object : Bool)
    (page_type gen : ℕ) where
  -- The bytes that a page gives to a run that starts on it.
  abbrev pub room : ℕ → ℕ
  room p =
      if is_free (h.page_table p) then s.page_bytes else s.page_bytes - bytes_used (h.page_table p)

  -- A run may start on the page: it is free, or open to more objects of the kind, with some room.
  abbrev pub StartsRun : ℕ → Type 0
  StartsRun p =
      (is_free (h.page_table p) ≡ true)
      ⊎ ((multi_object ≡ true)
          × (0 < s.page_bytes - bytes_used (h.page_table p))
          × (page_extensible_p s h p gen page_type ≡ true))

  -- The pages from `from` up to `to`, which have `bytes` bytes.
  pub record IsRun (from to bytes : ℕ) : Type 0 where
    pub extra : ℕ
    pub low : restart ≤ from
    pub end : to ≡ from + 1 + extra
    pub inside : to ≤ s.page_table_pages
    pub size : bytes ≡ room from + extra * s.page_bytes
    pub first : StartsRun from
    pub tight : (extra ≡ 0) ⊎ (bytes < goal + s.page_bytes)
    pub free : AllFree h (from + 1) extra

  -- All runs of free pages that start at the restart page or after it, and before `limit`.
  abbrev pub AtMost : ℕ → ℕ → Type 0
  AtMost limit most =
      (a k : ℕ)
      → restart ≤ a
      → a < limit
      → a + suc k ≤ s.page_table_pages
      → AllFree h a (suc k)
      → suc k * s.page_bytes ≤ most

  module _ (nbytes : ℕ) where
    pub record Searched (first : ℕ) (m : Most) : Type 0 where
      pub run : (m.bytes < nbytes) ⊎ IsRun m.from m.to m.bytes
      pub small : AtMost first m.bytes

    abbrev pub Ended : ℕ × Most → Type 0
    Ended (first, m) =
        ((nbytes ≤ m.bytes) × IsRun m.from m.to m.bytes)
        ⊎ ((m.bytes < nbytes) × (s.page_table_pages ≤ first) × AtMost s.page_table_pages m.bytes)

    abbrev candidate_of : ℕ → Candidate
    candidate_of p = candidate s h nbytes multi_object page_type gen p

    candidate_cases :
        (p : ℕ)
        → ((candidate_of p ≡ start (room p)) × StartsRun p)
          ⊎ ((is_free (h.page_table p) ≡ false)
              × (((b : ℕ) × (candidate_of p ≡ too_few b) × (b < nbytes))
                  ⊎ (candidate_of p ≡ unusable)))
    unfolding candidate
    candidate_cases p =
        let rest : ℕ = s.page_bytes - bytes_used (h.page_table p) in
        elim (Bool-cases (is_free (h.page_table p))) [
          | inl free ↦ rw free (inl (refl, inl refl))
          | inr used ↦ rw used (elim (Bool-cases multi_object) [
            | inr single ↦ rw single (inr (refl, inr refl))
            | inl multi ↦ elim (Bool-cases (ltb 0 rest)) [
              | inr full ↦ rw (multi, full) (inr (refl, inr refl))
              | inl some_left ↦ elim (Bool-cases (page_extensible_p s h p gen page_type)) [
                | inr other ↦ rw (multi, some_left, other) (inr (refl, inr refl))
                | inl open_page ↦ elim (Bool-cases (ltb rest nbytes && not (is_code page_type))) [
                  | inl few ↦
                      rw (multi, some_left, open_page, few)
                        (inr (refl, inl (rest, refl, ground (arith, few))))
                  | inr enough ↦
                      rw (multi, some_left, open_page, enough)
                        (inl (refl, inr (refl, ltb→lt 0 rest some_left, refl)))
                ]
              ]
            ]
          ])
        ]

    run_of :
        (first : ℕ) (r : ℕ × ℕ)
        → restart ≤ first
        → first < s.page_table_pages
        → StartsRun first
        → Grown s h goal (first + 1) (room first) r
        → IsRun first r.0 r.1
    run_of first r le lt starts g = record {
      extra = g.k;
      low = le;
      end = g.last;
      inside = g.inside;
      size = g.bytes;
      first = starts;
      tight = g.tight;
      free = g.free;
    }

    more-run :
        (m : Most) (first : ℕ) (r : ℕ × ℕ)
        → (m.bytes < nbytes) ⊎ IsRun m.from m.to m.bytes
        → IsRun first r.0 r.1
        → ((more m r.1 first r.0).bytes < nbytes)
          ⊎ IsRun (more m r.1 first r.0).from (more m r.1 first r.0).to (more m r.1 first r.0).bytes
    unfolding more
    more-run m first r old new = elim (Bool-cases (ltb m.bytes r.1)) [
      | inl e ↦ rw e (inr new)
      | inr e ↦ rw e old
    ]

    more-ge :
        (m : Most) (first : ℕ) (r : ℕ × ℕ)
        → (m.bytes ≤ (more m r.1 first r.0).bytes) × (r.1 ≤ (more m r.1 first r.0).bytes)
    unfolding more
    more-ge m first r = ground arith

    -- A run that `grow` left before the goal was as long as free pages go.
    before_goal :
        (first : ℕ) (r : ℕ × ℕ)
        → StartsRun first
        → Grown s h goal (first + 1) (room first) r
        → r.1 < goal
        → (a k : ℕ) → first ≤ a
        → a < r.0
        → a + suc k ≤ s.page_table_pages
        → AllFree h a (suc k)
        → suc k * s.page_bytes ≤ r.1
    before_goal first r starts g short a k low high inside free = elim (Bool-cases (a == first)) [
      | inl here ↦
          let at_first : a ≡ first = ground arith in
          let whole : room first ≡ s.page_bytes =
            rw (rw at_first at free first (omega arith) (omega arith)) refl in
          let few : suc k ≤ suc g.k = omega (arith, reach, g.last) in
          omega (arith, mul-le-mul_right s.page_bytes few, g.bytes, whole)
      | inr after ↦
          let few : suc k ≤ g.k = ground (arith, reach, g.last, after) in
          omega (arith, mul-le-mul_right s.page_bytes few, g.bytes)
    ]
      where
        reach : a + suc k ≤ r.0
        reach = elim g.stop [
          | inl goal_reached ↦ absurd (omega arith)
          | inr (inl end) ↦ omega (arith, end)
          | inr (inr used) ↦ elim (Bool-cases (ltb r.0 (a + suc k))) [
            | inl beyond ↦
                absurd
                  (ground (arith, free r.0 (omega arith) (ltb→lt r.0 (a + suc k) beyond), used))
            | inr within ↦ ground (arith, within)
          ]
        ]

    Searched-run :
        (first : ℕ) (m : Most) (r : ℕ × ℕ)
        → restart ≤ first
        → first < s.page_table_pages
        → StartsRun first
        → Grown s h goal (first + 1) (room first) r
        → r.1 < goal
        → Searched first m
        → Searched r.0 (more m r.1 first r.0)
    Searched-run first m r le lt starts g short q = record {
      run = more-run m first r q.run (run_of first r le lt starts g);
      small = λ a k low high inside free. elim (Bool-cases (ltb a first)) [
        | inl before ↦
            omega (arith, q.small a k low (ltb→lt a first before) inside free, more-ge m first r)
        | inr later ↦ omega (
          arith,
          before_goal first r starts g short a k (ground (arith, later)) high inside free,
          more-ge m first r,
        )
      ];
    }

    -- A page that is not free starts no run of free pages.
    Searched-skip :
        (first b : ℕ) (m : Most)
        → is_free (h.page_table first) ≡ false
        → b < nbytes
        → Searched first m
        → Searched (first + 1) (record m { bytes = if ltb m.bytes b then b else m.bytes })
    Searched-skip first b m used few q = record {
      run = skipped_run q.run;
      small = λ a k low high inside free. elim (Bool-cases (a == first)) [
        | inl here ↦
            let at_first : a ≡ first = ground arith in
            absurd (ground (arith, free first (omega arith) (omega arith), used))
        | inr other ↦
            let below = q.small a k low (ground (arith, other)) inside free in ground (arith, below)
      ];
    }
      where
        skipped_run :
            (m.bytes < nbytes) ⊎ IsRun m.from m.to m.bytes
            → ((if ltb m.bytes b then b else m.bytes) < nbytes)
              ⊎ IsRun m.from m.to (if ltb m.bytes b then b else m.bytes)
        skipped_run (inl less) = inl (ground arith)
        skipped_run (inr run) = elim (Bool-cases (ltb m.bytes b)) [
          | inl e ↦ rw e (inl few)
          | inr e ↦ rw e (inr run)
        ]

    Searched-useless :
        (first : ℕ) (m : Most)
        → is_free (h.page_table first) ≡ false
        → Searched first m
        → Searched (first + 1) m
    Searched-useless first m used q = record {
      run = q.run;
      small = λ a k low high inside free. elim (Bool-cases (a == first)) [
        | inl here ↦
            let at_first : a ≡ first = ground arith in
            absurd (ground (arith, free first (omega arith) (omega arith), used))
        | inr other ↦ q.small a k low (ground (arith, other)) inside free
      ];
    }

    Ended-end :
        (first : ℕ) (m : Most) → s.page_table_pages ≤ first → Searched first m → Ended (first, m)
    Ended-end first m le q = elim (Bool-cases (ltb m.bytes nbytes)) [
      | inl less ↦
          inr (ltb→lt m.bytes nbytes less, le, λ a k low high. q.small a k low (omega arith))
      | inr enough ↦ elim q.run [
        | inl less ↦ absurd (ground (arith, enough))
        | inr run ↦ inl (ground (arith, enough), run)
      ]
    ]

    Ended-reached :
        (first : ℕ) (m : Most) (r : ℕ × ℕ)
        → nbytes ≤ goal
        → goal ≤ r.1
        → restart ≤ first
        → first < s.page_table_pages
        → StartsRun first
        → Grown s h goal (first + 1) (room first) r
        → Searched first m
        → Ended (first, more m r.1 first r.0)
    Ended-reached first m r le reached low lt starts g q =
        elim (more-run m first r q.run (run_of first r low lt starts g)) [
          | inl less ↦ absurd (omega (arith, more-ge m first r))
          | inr run ↦ inl (omega (arith, more-ge m first r), run)
        ]

    -- The rest of the table is searched.
    pub rounds-Ended :
        (fuel first : ℕ) (m : Most)
        → nbytes ≤ goal
        → s.page_table_pages < first + fuel
        → restart ≤ first
        → first ≤ s.page_table_pages
        → Searched first m
        → Returns (freeish_rounds fuel s h nbytes goal multi_object page_type gen first m) Ended
    unfolding freeish_rounds
    rounds-Ended zero first m le enough low high q = absurd (omega arith)
    rounds-Ended (suc fuel) first m le enough low high q =
        elim (Bool-cases (ltb first s.page_table_pages)) [
          | inr at_end ↦ rw at_end (Ended-end first m (ground (arith, at_end)) q)
          | inl inside ↦
              let lt = ltb→lt first s.page_table_pages inside in
              let rest = λ (n : Most).
                rounds-Ended fuel (first + 1) n le (omega arith) (omega arith) (omega arith) in
              elim (candidate_cases first) [
                | inr (used, inr useless) ↦
                    rw (inside, useless) (rest _ (Searched-useless first m used q))
                | inr (used, inl (b, few, less)) ↦
                    rw (inside, few) (rest _ (Searched-skip first b m used less q))
                | inl (from, starts) ↦
                    let r =
                      grow (s.page_table_pages - (first + 1)) s h goal (first + 1) (room first) in
                    let g =
                      grow-Grown (s.page_table_pages - (first + 1)) s h goal (first + 1)
                        (room first) (omega arith) in
                    elim (Bool-cases (leb goal r.1)) [
                      | inl reached ↦
                          rw (inside, from, reached)
                            (Ended-reached first m r le (ground (arith, reached)) low lt starts g q)
                      | inr short ↦
                          rw (inside, from, short)
                            (rounds-Ended fuel r.0 (more m r.1 first r.0) le (omega (arith, g.last))
                              (omega (arith, g.last)) g.inside
                              (Searched-run first m r low lt starts g (ground (arith, short)) q))
                    ]
              ]
        ]
