-- ===== src/DynBind/Unwind.antt =====
-- Bindings are undone in src/runtime/dynbind.c.
use cl.Common.{
  ℕ, zero, suc, ◌+◌, ◌-◌, ◌≤◌, ◌<◌, ◌≡◌, ◌≢◌, refl, ap, sym, ◌∙◌, arith, inl, inr, true, false,
  Bool-cases, ◌==◌, List, [], ◌∷◌, assign, Returns,
}
use cl.DynBind.{Thread, bind_tls_cell, unbind, unbind_step, unbind_rounds, unbind_to_here}
use cl.DynBind.Scope.{
  Event, binds, sets, happens, run, Bindable, lasting, lasting-bound, lasting-other,
}

-- A thread whose stack is that of `t` up to the pointer of `t`.
pub record Below (t u : Thread) : Type 0 where
  pub pointer : t.binding_stack_pointer ≤ u.binding_stack_pointer
  pub stack : (i : ℕ) → i < t.binding_stack_pointer → u.stack i ≡ t.stack i

Below-happens : (e : Event) (t : Thread) → Below t (happens e t)
unfolding happens bind_tls_cell
Below-happens (binds x v) t = record {
  pointer = omega arith;
  stack =
      λ i lt. let off : (i == t.binding_stack_pointer) ≡ false = ground (arith, lt) in rw off refl;
}
Below-happens (sets x v) t = record { pointer = omega arith; stack = λ i lt. refl }

Below-run : (es : List Event) (t : Thread) → Below t (run es t)
unfolding run
Below-run [] t = record { pointer = omega arith; stack = λ i lt. refl }
Below-run (e ∷ es) t =
    let a = Below-happens e t in
    let b = Below-run es (happens e t) in
    record {
      pointer = omega (arith, a.pointer, b.pointer);
      stack = λ i lt. b.stack i (omega (arith, a.pointer, lt)) ∙ a.stack i lt;
    }

-- The last round stands at the bottom.
unbind_rounds-last :
    (n m : ℕ) (t : Thread) → unbind_rounds (suc n) m t ≡ unbind_step m (unbind_rounds n m t)
unfolding unbind_rounds
unbind_rounds-last zero m t = refl
unbind_rounds-last (suc n) m t = unbind_rounds-last n m (unbind_step m t)

unbind_rounds-pointer :
    (n m : ℕ) (t : Thread)
    → (unbind_rounds n m t).binding_stack_pointer ≡ t.binding_stack_pointer - n
unfolding unbind_rounds unbind_step
unbind_rounds-pointer zero m t = omega arith
unbind_rounds-pointer (suc n) m t = omega (arith, unbind_rounds-pointer n m (unbind_step m t))

-- The stack is cleared from the pointer on and kept below it.
unbind_rounds-stack :
    (n m : ℕ) (t : Thread) (i : ℕ)
    → i < t.binding_stack_pointer - n
    → (unbind_rounds n m t).stack i ≡ t.stack i
unfolding unbind_rounds unbind_step
unbind_rounds-stack zero m t i below = refl
unbind_rounds-stack (suc n) m t i below =
    unbind_rounds-stack n m (unbind_step m t) i (omega arith)
    ∙ (let off : (i == t.binding_stack_pointer - 1) ≡ false = ground (arith, below) in
        elim (Bool-cases ((t.stack (t.binding_stack_pointer - 1)).symbol == 0)) [
          | inl z ↦ rw z refl
          | inr z ↦ rw (z, off) refl
        ])

unbind_step-cells :
    (m : ℕ) (u : Thread) (i x w j : ℕ)
    → u.binding_stack_pointer ≡ i + 1
    → u.stack i ≡ record { symbol = x; value = w }
    → x ≢ 0
    → x ≢ m
    → (unbind_step m u).cells j ≡ assign u.cells x w j
unfolding unbind_step
unbind_step-cells m u i x w j at top real marked =
    let e : u.binding_stack_pointer - 1 ≡ i = omega arith in
    let b : u.stack (u.binding_stack_pointer - 1) ≡ record { symbol = x; value = w } =
      ap u.stack e ∙ top in
    let a : (x == 0) ≡ false = ground (arith, real) in
    let c : (x == m) ≡ false = ground (arith, marked) in rw b (rw (a, c) refl)

cells_unwound :
    (m : ℕ) (es : List Event) (t : Thread) (n j : ℕ)
    → Bindable m es
    → (run es t).binding_stack_pointer ≡ t.binding_stack_pointer + n
    → (unbind_rounds n m (run es t)).cells j ≡ lasting es (λ _. false) t.cells j
unfolding run lasting unbind_rounds happens bind_tls_cell
cells_unwound m [] t zero j good e = refl
cells_unwound m [] t (suc n) j good e = absurd (omega (arith, e))
cells_unwound m (sets x v ∷ es) t n j (_, good) e =
    cells_unwound m es (record t { cells = assign t.cells x v }) n j good e
cells_unwound m (binds x v ∷ es) t zero j good e =
    absurd (omega (arith, e, (Below-run es (bind_tls_cell x v t)).pointer))
cells_unwound m (binds x v ∷ es) t (suc n) j ((real, marked), good) e =
    ap (λ (u : Thread). u.cells j) (unbind_rounds-last n m (run es t1))
    ∙ (unbind_step-cells m u t.binding_stack_pointer x (t.cells x) j at top real marked
        ∙ restored (cells_unwound m es t1 n j good (omega (arith, e))))
  where
    t1 : Thread
    t1 = bind_tls_cell x v t

    u : Thread
    u = unbind_rounds n m (run es t1)

    at : u.binding_stack_pointer ≡ t.binding_stack_pointer + 1
    at = omega (arith, unbind_rounds-pointer n m (run es t1), e)

    top : u.stack t.binding_stack_pointer ≡ record { symbol = x; value = t.cells x }
    top =
        unbind_rounds-stack n m (run es t1) t.binding_stack_pointer (omega (arith, e))
        ∙ ((Below-run es t1).stack t.binding_stack_pointer (omega arith)
            ∙ (let same : (t.binding_stack_pointer == t.binding_stack_pointer) ≡ true =
                  ground arith in
                rw same refl))

    restored :
        u.cells j ≡ lasting es (λ _. false) t1.cells j
        → assign u.cells x (t.cells x) j ≡ lasting es (assign (λ _. false) x true) t.cells j
    restored inner = elim (Bool-cases (j == x)) [
      | inl same ↦
          (let eq : j ≡ x = ground (arith, same) in
            rw same (
              sym (
                lasting-bound es (assign (λ _. false) x true) t.cells j (rw same refl)
                ∙ ap t.cells eq)))
      | inr off ↦
          (let ne : j ≢ x = ground (arith, off) in
            rw off (
              inner
              ∙ lasting-other es (λ _. false) (assign (λ _. false) x true) t1.cells t.cells x
                  (λ k d. let f : (k == x) ≡ false = ground (arith, d) in rw f refl)
                  (λ k d. let f : (k == x) ≡ false = ground (arith, d) in rw f refl) j ne))
    ]

-- What a function that undoes bindings leaves: the cells of dynamic scope, the pointer and the
-- stack below it.
pub record IsUnwound (t : Thread) (left : ℕ → ℕ) (u : Thread) : Type 0 where
  pub cells : (s : ℕ) → u.cells s ≡ left s
  pub pointer : u.binding_stack_pointer ≡ t.binding_stack_pointer
  pub stack : (i : ℕ) → i < t.binding_stack_pointer → u.stack i ≡ t.stack i

-- After any bindings and assignments, of which the bound symbols are neither 0 nor the unbound
-- marker, `unbind_to_here` with the stack pointer of before brings back the stack and its
-- pointer, and in each cell what dynamic scope leaves in it: the last value that was assigned to
-- it before the symbol was bound, or else its value of before.
pub unbind_to_here-IsUnwound :
    (unbound_marker : ℕ) (es : List Event) (t : Thread)
    → Bindable unbound_marker es
    → IsUnwound t
        (lasting es (λ _. false) t.cells)
        (unbind_to_here unbound_marker t.binding_stack_pointer (run es t))
unfolding unbind_to_here
unbind_to_here-IsUnwound m es t good = record {
  cells = λ s.
      cells_unwound m es t (u.binding_stack_pointer - t.binding_stack_pointer) s good
        (omega (arith, b.pointer));
  pointer = omega (
    arith,
    b.pointer,
    unbind_rounds-pointer (u.binding_stack_pointer - t.binding_stack_pointer) m u,
  );
  stack = λ i lt.
      unbind_rounds-stack (u.binding_stack_pointer - t.binding_stack_pointer) m u i
        (omega (arith, b.pointer, lt))
      ∙ b.stack i lt;
}
  where
    u : Thread
    u = run es t

    b : Below t u
    b = Below-run es t

-- `unbind` after `bind_tls_cell` brings back every cell, the stack pointer and the stack below it,
-- whatever was assigned to the symbol in between.
pub bind_tls_cell-unbind :
    (symbol value later : ℕ) (t : Thread)
    → Returns
        (unbind (happens (sets symbol later) (bind_tls_cell symbol value t)))
        (IsUnwound t t.cells)
unfolding unbind bind_tls_cell happens
bind_tls_cell-unbind x value later t =
    let e : (t.binding_stack_pointer + 1 == 0) ≡ false = ground arith in
    let top : t.binding_stack_pointer + 1 - 1 ≡ t.binding_stack_pointer = omega arith in
    let same : (t.binding_stack_pointer == t.binding_stack_pointer) ≡ true = ground arith in
    rw e (record {
      cells = λ s. rw top (
          rw same (elim (Bool-cases (s == x)) [
            | inl here ↦ (let eq : s ≡ x = ground (arith, here) in rw here (ap t.cells (sym eq)))
            | inr off ↦ rw off refl
          ]));
      pointer = omega arith;
      stack = λ i lt.
          let off : (i == t.binding_stack_pointer) ≡ false = ground (arith, lt) in
          rw top (rw off refl);
    })
