-- ===== src/DynBind/Tests.antt =====
-- Concrete runs of dynamic binding, and the theorems at concrete inputs.
use cl.Common.{◌*◌, ◌+◌, ◌≡◌, refl, arith, List, [], ◌∷◌, false}
use cl.DynBind.{Thread, cleared, bind_tls_cell, unbind_step, unbind_rounds, unbind_to_here}
use cl.DynBind.Scope.{Event, binds, sets, happens, run, lasting}
use cl.DynBind.Unwind.{IsUnwound, unbind_to_here-IsUnwound}

abbrev thread : Thread
thread = record { cells = λ s. s * 10; stack = λ _. cleared; binding_stack_pointer = 5 }

-- Symbol 1 is assigned, bound and assigned again, and then 2 is assigned and bound.
abbrev events : List Event
events = sets 1 77 ∷ binds 1 78 ∷ sets 1 79 ∷ sets 2 80 ∷ binds 2 81 ∷ []

unbind_to_here-IsUnwound_example :
    IsUnwound thread
      (lasting events (λ _. false) thread.cells)
      (unbind_to_here 9 5 (run events thread))
unbind_to_here-IsUnwound_example = unbind_to_here-IsUnwound 9 events thread (
  tt,
  (
    (λ e. omega (arith, e), λ e. omega (arith, e)),
    (tt, (tt, ((λ e. omega (arith, e), λ e. omega (arith, e)), tt))),
  ),
)

cells_of_1_and_2 :
    (unbind_to_here 9 5 (run events thread)).cells 1 * 100
      + (unbind_to_here 9 5 (run events thread)).cells 2
    ≡ 7780
unfolding unbind_to_here unbind_rounds unbind_step run happens bind_tls_cell
cells_of_1_and_2 = refl
