-- ===== src/DynBind/Scope.antt =====
-- Dynamic scope, against which src/runtime/dynbind.c is measured.
use cl.Common.{
  ℕ, ◌≡◌, ◌≢◌, refl, ap, sym, ◌∙◌, arith, inl, inr, Bool, true, false, Bool-cases, ◌==◌,
  if◌then◌else◌, List, [], ◌∷◌, compare_cases, assign,
}
use cl.DynBind.{Thread, bind_tls_cell}

-- What compiled code and the runtime do to a thread between a binding and its undoing.
pub data Event : Type 0 where
  binds : ℕ → ℕ → Event
  sets : ℕ → ℕ → Event

unfoldable pub happens : Event → Thread → Thread
happens (binds symbol value) t = bind_tls_cell symbol value t
happens (sets symbol value) t = record t { cells = assign t.cells symbol value }

unfoldable pub run : List Event → Thread → Thread
run [] t = t
run (e ∷ es) t = run es (happens e t)

-- The symbols that are bound are no markers of the binding stack.
abbrev pub IsBindable : ℕ → Event → Type 0
IsBindable unbound_marker (binds symbol value) = (symbol ≢ 0) × (symbol ≢ unbound_marker)
IsBindable unbound_marker (sets symbol value) = Unit

abbrev pub Bindable : ℕ → List Event → Type 0
Bindable unbound_marker [] = Unit
Bindable unbound_marker (e ∷ es) = IsBindable unbound_marker e × Bindable unbound_marker es

-- Dynamic scope: what is left of the events outside of them. An assignment lasts unless the symbol
-- is bound at that time.
unfoldable pub lasting : List Event → (ℕ → Bool) → (ℕ → ℕ) → ℕ → ℕ
lasting [] bound cells = cells
lasting (binds symbol value ∷ es) bound cells = lasting es (assign bound symbol true) cells
lasting (sets symbol value ∷ es) bound cells =
    lasting es bound (if bound symbol then cells else assign cells symbol value)

-- A symbol that is bound keeps its cell.
pub lasting-bound :
    (es : List Event) (bound : ℕ → Bool) (cells : ℕ → ℕ) (s : ℕ)
    → bound s ≡ true
    → lasting es bound cells s ≡ cells s
unfolding lasting
lasting-bound [] bound cells s b = refl
lasting-bound (binds x v ∷ es) bound cells s b =
    lasting-bound es (assign bound x true) cells s
      (elim (Bool-cases (s == x)) [ inl e ↦ rw e refl | inr e ↦ rw e b ])
lasting-bound (sets x v ∷ es) bound cells s b =
    lasting-bound es bound (if bound x then cells else assign cells x v) s b
    ∙ (elim (Bool-cases (bound x)) [
      | inl e ↦ rw e refl
      | inr e ↦ (let ne : (s == x) ≡ false = different x e in rw (e, ne) refl)
    ])
  where
    different : (x : ℕ) → bound x ≡ false → (s == x) ≡ false
    different x e = elim (Bool-cases (s == x)) [
      | inl same ↦ (let eq : s ≡ x = ground (arith, same) in absurd (cc (b, e, eq)))
      | inr d ↦ d
    ]

-- For the other symbols the cell of a bound one makes no difference, nor that it is bound.
pub lasting-other :
    (es : List Event) (bound bound' : ℕ → Bool) (cells cells' : ℕ → ℕ) (s : ℕ)
    → ((j : ℕ) → j ≢ s → bound j ≡ bound' j)
    → ((j : ℕ) → j ≢ s → cells j ≡ cells' j)
    → (j : ℕ) → j ≢ s
    → lasting es bound cells j ≡ lasting es bound' cells' j
unfolding lasting
lasting-other [] bound bound' cells cells' s b c j ne = c j ne
lasting-other (binds x v ∷ es) bound bound' cells cells' s b c j ne =
    lasting-other es (assign bound x true) (assign bound' x true) cells cells' s
      (λ k d. ap (λ t. if k == x then true else t) (b k d)) c j ne
lasting-other (sets x v ∷ es) bound bound' cells cells' s b c j ne =
    lasting-other es bound bound' _ _ s b step j ne
  where
    step :
        (k : ℕ)
        → k ≢ s
        → (if bound x then cells else assign cells x v) k
          ≡ (if bound' x then cells' else assign cells' x v) k
    step k d = elim (compare_cases x s) [
      | inl e ↦
          (let off : (k == x) ≡ false = ground (arith, e, d) in
            unchanged (bound x) cells k off ∙ (c k d ∙ sym (unchanged (bound' x) cells' k off)))
      | inr (inl lt) ↦ same (λ e. omega arith)
      | inr (inr gt) ↦ same (λ e. omega arith)
    ]
      where
        unchanged :
            (t : Bool) (f : ℕ → ℕ) (k : ℕ)
            → (k == x) ≡ false
            → (if t then f else assign f x v) k ≡ f k
        unchanged true f k off = refl
        unchanged false f k off = rw off refl

        both :
            (t : Bool)
            → (if t then cells else assign cells x v) k
              ≡ (if t then cells' else assign cells' x v) k
        both true = c k d
        both false = ap (λ y. if k == x then v else y) (c k d)

        same :
            x ≢ s
            → (if bound x then cells else assign cells x v) k
              ≡ (if bound' x then cells' else assign cells' x v) k
        same ne = both (bound x) ∙ ap (λ t. (if t then cells' else assign cells' x v) k) (b x ne)
