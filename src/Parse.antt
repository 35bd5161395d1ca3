-- ===== src/Parse.antt =====
-- src/runtime/parse.c: the tokens, numbers and addresses that the monitor reads from a line. A C
-- string is the list of the bytes before its NUL; a `char` is signed, so that a byte from 128 on is
-- below the blank.
pub mod Token
pub mod Number
mod Tests
use cl.Common.{
  ℕ, zero, suc, ◌+◌, ◌-◌, ◌*◌, ◌/◌, ◌%◌, ◌^◌, Bool, true, false, not, ◌&&◌, ◌||◌, Option, none,
  some, List, [], ◌∷◌, leb, ltb, ◌==◌, if◌then◌else◌, Outcome, ok, ◌>>=◌,
}
use cl.Variables.{Vars, Name, lookup_by_name, var_value}

-- `**ptr > ' '`
unfoldable pub above_blank : ℕ → Bool
above_blank c = ltb 32 c && ltb c 128

unfoldable pub skip_ws : List ℕ → List ℕ
skip_ws [] = []
skip_ws (c ∷ text) = let rest = skip_ws text in if above_blank c then c ∷ text else rest

unfoldable pub more_p : List ℕ → List ℕ × Bool
more_p text = elim (skip_ws text) [ [] ↦ ([], false) | c ∷ rest ↦ (c ∷ rest, true) ]

-- The loop that ends a token, and the step over the byte that is overwritten by NUL.
unfoldable pub cut_token : List ℕ → List ℕ × List ℕ
cut_token [] = ([], [])
cut_token (c ∷ text) =
    let (token, rest) = cut_token text in if above_blank c then (c ∷ token, rest) else ([], text)

-- `parse_token` behind its `skip_ws`.
unfoldable pub take_token : List ℕ → Option (List ℕ) × List ℕ
take_token [] = (none, [])
take_token (c ∷ rest) = let (token, behind) = cut_token (c ∷ rest) in (some token, behind)

-- The token, or null, and the text behind it.
unfoldable pub parse_token : List ℕ → Option (List ℕ) × List ℕ
parse_token text = take_token (skip_ws text)

unfoldable pub digit_of : ℕ → Option ℕ
digit_of c =
    if leb 0x61 c && leb c 0x66
    then some (c + 10 - 0x61)
    else if leb 0x41 c && leb c 0x46
    then some (c + 10 - 0x41)
    else if leb 0x30 c && leb c 0x39
    then some (c - 0x30)
    else none

-- The loop of `string_to_long`; `num` is a 64-bit word.
unfoldable pub read_digits : ℕ → ℕ → List ℕ → Option ℕ
read_digits base num [] = some num
read_digits base num (c ∷ text) = elim (digit_of c) [
  | none ↦ none
  | some digit ↦
      let rest = read_digits base ((num * base + digit) % 2 ^ 64) text in
      if leb base digit then none else rest
]

-- The base, and the text behind the prefix that gives it.
unfoldable pub read_base : List ℕ → Option (ℕ × List ℕ)
read_base [] = some (10, [])
read_base (c ∷ []) =
    if c == 0x30 then some (8, []) else if c == 0x23 then none else some (10, c ∷ [])
read_base (c ∷ d ∷ text) =
    if c == 0x30
    then (if d == 0x78 || d == 0x58 then some (16, text) else some (8, d ∷ text))
    else if c == 0x23
    then (if d == 0x78 || d == 0x58
        then some (16, text)
        else if d == 0x6f || d == 0x4f
        then some (8, text)
        else none)
    else some (10, c ∷ d ∷ text)

unfoldable pub string_to_long : List ℕ → Option ℕ
string_to_long token = elim (read_base token) [
  | none ↦ none
  | some (base, text) ↦ read_digits base 0 text
]

-- The number, as a 32-bit pattern, where it returns 1.
unfoldable pub parse_number : List ℕ → Option ℕ × List ℕ
parse_number text =
    let (token, rest) = parse_token text in
    (
      elim token [
        | none ↦ none
        | some t ↦ elim (string_to_long t) [ none ↦ none | some n ↦ some (n % 2 ^ 32) ]
      ],
      rest,
    )

unfoldable pub lookup_variable : Vars → Name → Outcome (Vars × Option ℕ)
lookup_variable s name = lookup_by_name s name >>= λ var. elim var [
  | none ↦ ok (s, none)
  | some v ↦ var_value s v >>= λ r. ok (r.0, some r.1)
]

-- The end of `parse_addr`.
unfoldable pub checked_addr : (ℕ → Bool) → Bool → ℕ → Option ℕ
checked_addr gc_managed_addr_p safely addr =
    if safely && not (gc_managed_addr_p addr) then none else some addr

-- `gc_managed_addr_p` looks at the spaces of the heap, and is given.
unfoldable pub parse_addr : (ℕ → Bool) → Vars → List ℕ → Bool → Outcome (Vars × (Option ℕ × List ℕ))
parse_addr gc_managed_addr_p s text safely =
    let (token, rest) = parse_token text in
    elim token [
      | none ↦ ok (s, (none, rest))
      | some t ↦ elim t [
        | [] ↦ ok (s, (checked_addr gc_managed_addr_p safely 0, rest))
        | c ∷ name ↦ elim (c == 0x24) [
          | true ↦ lookup_variable s name >>= λ r. ok (
            r.0,
            (
              elim r.1 [ none ↦ none | some n ↦ checked_addr gc_managed_addr_p safely (n / 8 * 8) ],
              rest,
            ),
          )
          | false ↦ ok (
            s,
            (
              elim (string_to_long (c ∷ name)) [
                | none ↦ none
                | some n ↦ checked_addr gc_managed_addr_p safely (n / 4 * 4)
              ],
              rest,
            ),
          )
        ]
      ]
    ]
