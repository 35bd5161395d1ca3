-- ===== src/DynBind.antt =====
-- src/runtime/dynbind.c: dynamic binding. The binding stack is an array, and pointers into it are
-- indices. The value cells, of symbols or of thread-local storage, lie apart from it.
pub mod Scope
pub mod Unwind
mod Tests
use cl.Common.{
  ℕ, zero, suc, ◌+◌, ◌-◌, ◌≡◌, Bool, true, false, ◌||◌, ◌==◌, if◌then◌else◌, Outcome, ok, fault,
  assign,
}

-- `struct binding`
pub record Binding : Type 0 where
  pub symbol : ℕ
  pub value : ℕ

-- What a binding or an unbinding touches of a thread: the value cells, the binding stack and
-- its pointer.
pub record Thread : Type 0 where
  pub cells : ℕ → ℕ
  pub stack : ℕ → Binding
  pub binding_stack_pointer : ℕ

abbrev pub cleared : Binding
cleared = record { symbol = 0; value = 0 }

-- `bind_tls_cell`, and `bind_variable` where there are no threads.
unfoldable pub bind_tls_cell : ℕ → ℕ → Thread → Thread
bind_tls_cell symbol value t = record {
  binding_stack_pointer = t.binding_stack_pointer + 1;
  stack =
      assign t.stack t.binding_stack_pointer (record { symbol = symbol; value = t.cells symbol });
  cells = assign t.cells symbol value;
}

-- With an empty stack it would read below the stack.
unfoldable pub unbind : Thread → Outcome Thread
unbind t =
    let top : ℕ = t.binding_stack_pointer - 1 in
    let b = t.stack top in
    if t.binding_stack_pointer == 0
    then fault
    else ok (record {
      binding_stack_pointer = top;
      stack = assign t.stack top cleared;
      cells = assign t.cells b.symbol b.value;
    })

-- A round of the loop in `unbind_to_here`, where the local variable `binding` is the stack pointer;
-- `unbound_marker` is UNBOUND_MARKER_WIDETAG, a constant that the build generates.
unfoldable pub unbind_step : ℕ → Thread → Thread
unbind_step unbound_marker t =
    let top : ℕ = t.binding_stack_pointer - 1 in
    let b = t.stack top in
    record {
      binding_stack_pointer = top;
      stack = if b.symbol == 0 then t.stack else assign t.stack top cleared;
      cells =
          if b.symbol == 0 || b.symbol == unbound_marker
          then t.cells
          else assign t.cells b.symbol b.value;
    }

unfoldable pub unbind_rounds : ℕ → ℕ → Thread → Thread
unbind_rounds zero unbound_marker t = t
unbind_rounds (suc n) unbound_marker t =
    unbind_rounds n unbound_marker (unbind_step unbound_marker t)

unfoldable pub unbind_to_here : ℕ → ℕ → Thread → Thread
unbind_to_here unbound_marker target t =
    unbind_rounds (t.binding_stack_pointer - target) unbound_marker t
