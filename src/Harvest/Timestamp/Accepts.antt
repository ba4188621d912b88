-- ===== src/Harvest/Timestamp/Accepts.antt =====
-- Which timestamps are accepted, and what they mean.
use sjmb_slack.Prelude.{
  ℕ, ◌≤◌, ◌≡◌, ◌↔◌, ◌⊎◌, inl, inr, refl, ap, ◌∙◌, Bool, true, false, [], ◌∷◌, ◌++◌, all, arith,
  Option-cases,
}
use sjmb_slack.Prelude.Text.{
  Text, is_digit, is_empty, split_once, split_once-eq-some, split_once-eq-none, split_once-append,
}
use sjmb_slack.Prelude.Result.{ok}
use sjmb_slack.Harvest.Timestamp.{message_timestamp, decimal, i64_max, contains_dot, parts}

-- One digit at least, and digits only.
abbrev pub IsNumeral : Text → Type 0
IsNumeral t = (is_empty t ≡ false) × (all is_digit t ≡ true)

-- A timestamp is a numeral, or two numerals joined by one dot.
abbrev pub Shape : Text → Text → Type 0
Shape ts seconds =
    IsNumeral seconds × ((ts ≡ seconds) ⊎ ((f : Text) × (ts ≡ seconds ++ b'.' ∷ f) × IsNumeral f))

digits-no_dot : (t : Text) → all is_digit t ≡ true → contains_dot t ≡ false
digits-no_dot [] h = refl
digits-no_dot (c ∷ cs) h = ground (arith, digits-no_dot cs)

module _ (in_range : ℕ → Bool) where
  accepted-Shape :
      (ts : Text) (n : ℕ)
      → message_timestamp in_range ts ≡ ok n
      → (s : Text) × Shape ts s × (decimal 0 s ≡ n) × (n ≤ i64_max) × (in_range n ≡ true)
  unfolding message_timestamp
  accepted-Shape ts n h = elim (Option-cases (split_once b'.' ts)) [
    | inl e ↦
        (ts, ((ground arith, ground arith), inl refl), ground arith, ground arith, ground arith)
    | inr ((s, f), e) ↦
        let (p, d) = split_once-eq-some b'.' ts s f e in
        (
          s,
          ((ground arith, ground arith), inr (f, p, (ground (arith, d), ground (arith, d)))),
          ground arith,
          ground arith,
          ground arith,
        )
  ]

  Shape-accepted :
      (ts s : Text)
      → Shape ts s
      → decimal 0 s ≤ i64_max
      → in_range (decimal 0 s) ≡ true
      → message_timestamp in_range ts ≡ ok (decimal 0 s)
  unfolding message_timestamp
  Shape-accepted ts s (num, inl e) fits ranged =
      let no_dot = digits-no_dot s num.1 in
      rw (e, message_timestamp, parts, split_once-eq-none b'.' s no_dot) (ground arith)
  Shape-accepted ts s (num, inr (f, e, numf)) fits ranged =
      let no_dot = digits-no_dot s num.1 in
      rw (e, message_timestamp, parts, split_once-append b'.' s f no_dot) (ground arith)

  -- A timestamp is accepted with value `n` exactly if it is a numeral, or two joined by one dot,
  -- whose first numeral denotes `n` in decimal, with `n` in the range of i64 and of chrono's dates.
  pub message_timestamp-accepts :
      (ts : Text) (n : ℕ)
      → (message_timestamp in_range ts ≡ ok n)
        ↔ ((s : Text) × Shape ts s × (decimal 0 s ≡ n) × (n ≤ i64_max) × (in_range n ≡ true))
  message_timestamp-accepts ts n = (
    accepted-Shape ts n,
    λ (s, shape, value, fits, ranged).
        Shape-accepted ts s shape (rw value fits) (rw value ranged) ∙ ap ok value,
  )
