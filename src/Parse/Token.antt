-- ===== src/Parse/Token.antt =====
-- What `parse_token` cuts from a line.
use cl.Common.{
  ℕ, ◌≡◌, ◌≢◌, ◌⊎◌, refl, ap, ◌∙◌, inl, inr, Bool, Bool-cases, true, false, Option, none, some,
  List, [], ◌∷◌, ◌++◌, append-nil,
}
use cl.Parse.{above_blank, skip_ws, cut_token, take_token, parse_token}

-- Every byte of the text is above the blank, or none is.
abbrev pub Every : Bool → List ℕ → Type 0
Every b [] = Unit
Every b (c ∷ text) = (above_blank c ≡ b) × Every b text

-- `tail` is empty, or one blank byte and then `rest`.
abbrev pub Separated : List ℕ → List ℕ → Type 0
Separated rest tail =
    ((tail ≡ []) × (rest ≡ [])) ⊎ ((c : ℕ) × (above_blank c ≡ false) × (tail ≡ c ∷ rest))

abbrev StartsAbove : List ℕ → Type 0
StartsAbove [] = Unit
StartsAbove (c ∷ text) = above_blank c ≡ true

skipped :
    (text : List ℕ)
    → (blanks : List ℕ) × Every false blanks
      × (text ≡ blanks ++ skip_ws text)
      × StartsAbove (skip_ws text)
unfolding skip_ws
skipped [] = ([], tt, refl, tt)
skipped (c ∷ text) =
    let (blanks, all, e, starts) = skipped text in
    elim (Bool-cases (above_blank c)) [
      | inl above ↦ rw above ([], tt, refl, above)
      | inr blank ↦ rw blank (c ∷ blanks, (blank, all), ap (λ t. c ∷ t) e, starts)
    ]

cut :
    (text : List ℕ)
    → Every true (cut_token text).0
      × (tail : List ℕ) × (text ≡ (cut_token text).0 ++ tail)
      × Separated (cut_token text).1 tail
unfolding cut_token
cut [] = (tt, [], refl, inl (refl, refl))
cut (c ∷ text) =
    let (all, tail, e, sep) = cut text in
    elim (Bool-cases (above_blank c)) [
      | inl above ↦ rw above ((above, all), tail, ap (λ t. c ∷ t) e, sep)
      | inr blank ↦ rw blank (tt, c ∷ text, refl, inr (c, blank, refl))
    ]

starts_token : (c : ℕ) (text : List ℕ) → above_blank c ≡ true → (cut_token (c ∷ text)).0 ≢ []
unfolding cut_token
starts_token c text e = rw e (λ h. cc)

-- What a call of `parse_token` may give.
abbrev pub Tokenized : List ℕ → Option (List ℕ) → List ℕ → Type 0
Tokenized text none rest = Every false text × (rest ≡ [])
Tokenized text (some token) rest =
    Every true token
    × (token ≢ [])
    × (blanks : List ℕ) × (tail : List ℕ) × Every false blanks
    × (text ≡ blanks ++ (token ++ tail))
    × Separated rest tail

taken :
    (text skip : List ℕ)
    → (blanks : List ℕ) × Every false blanks × (text ≡ blanks ++ skip) × StartsAbove skip
    → Tokenized text (take_token skip).0 (take_token skip).1
unfolding take_token
taken text [] (blanks, all, e, _) =
    let f : text ≡ blanks = e ∙ append-nil blanks in (rw f all, refl)
taken text (c ∷ skip) (blanks, all, e, above) =
    let (token, tail, f, sep) = cut (c ∷ skip) in
    (token, starts_token c skip above, blanks, tail, all, e ∙ ap (λ t. blanks ++ t) f, sep)

-- `parse_token` returns null for a text with no byte above the blank. Otherwise the text is blanks,
-- the token, which is not empty and has no blank, and then its end or one blank and the rest.
pub parse_token-Tokenized :
    (text : List ℕ) → Tokenized text (parse_token text).0 (parse_token text).1
unfolding parse_token
parse_token-Tokenized text = taken text (skip_ws text) (skipped text)
