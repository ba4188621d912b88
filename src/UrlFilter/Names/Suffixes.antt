-- ===== src/UrlFilter/Names/Suffixes.antt =====
-- Which names the loop of `blocks_domain` blocks.
use sjmb_slack.Prelude.{
  ℕ, zero, suc, ◌<◌, ◌≡◌, refl, sym, append_assoc, ap, ◌∙◌, ◌↔◌, ◌⊎◌, inl, inr, true, false, List,
  [], ◌∷◌, ◌++◌, none, some, length, length-append, arith, Bool-cases, Option-cases,
}
use sjmb_slack.Prelude.Text.{Text, is_empty, split_once, split_once-eq-some}
use sjmb_slack.UrlFilter.Names.{dot, contains, blocks_loop, blocks_domain}

-- A suffix that begins at a label: the whole name, or what follows one of its dots, if anything does.
abbrev pub LabelSuffix : Text → Text → Type 0
LabelSuffix r name = (r ≡ name) ⊎ ((p : Text) × (name ≡ p ++ dot ∷ r) × (is_empty r ≡ false))

split_once-inner :
    (p r : Text)
    → split_once dot (p ++ dot ∷ r)
      ≡ elim (split_once dot p) [ none ↦ some (p, r) | some (a, b) ↦ some (a, b ++ dot ∷ r) ]
split_once-inner [] r = refl
split_once-inner (c ∷ cs) r = ground (arith, split_once-inner cs r)

length-rest : (s a b : Text) → split_once dot s ≡ some (a, b) → length b < length s
length-rest s a b h =
    let e = (split_once-eq-some dot s a b h).0 in
    omega (arith, ap length e, length-append a (dot ∷ b))

is_empty-inner : (b r : Text) → is_empty (b ++ dot ∷ r) ≡ false
is_empty-inner [] r = refl
is_empty-inner (c ∷ cs) r = refl

LabelSuffix-later :
    (a b r s : Text) → s ≡ a ++ dot ∷ b → is_empty b ≡ false → LabelSuffix r b → LabelSuffix r s
LabelSuffix-later a b r s e filled (inl same) = inr (a, rw same e, rw same filled)
LabelSuffix-later a b r s e filled (inr (p, inner, some_char)) = inr (
  a ++ dot ∷ p,
  e ∙ ap (λ x. a ++ dot ∷ x) inner ∙ sym (append_assoc a (dot ∷ p) (dot ∷ r)),
  some_char,
)

blocked-suffix :
    (fuel : ℕ) (ds : List Text) (s : Text)
    → blocks_loop fuel ds s ≡ true
    → (r : Text) × LabelSuffix r s × (contains ds r ≡ true)
unfolding blocks_loop
blocked-suffix zero ds s h = cc
blocked-suffix (suc fuel) ds s h = elim (Bool-cases (contains ds s)) [
  | inl hit ↦ (s, inl refl, hit)
  | inr miss ↦ elim (Option-cases (split_once dot s)) [
    | inl whole ↦ absurd (ground arith)
    | inr ((a, b), cut) ↦ elim (Bool-cases (is_empty b)) [
      | inl last ↦ absurd (ground arith)
      | inr more ↦
          let (r, suffix, found) = blocked-suffix fuel ds b (ground arith) in
          (r, LabelSuffix-later a b r s (split_once-eq-some dot s a b cut).0 more suffix, found)
    ]
  ]
]

-- What a suffix of `s` is of the part behind the first dot.
LabelSuffix-cases :
    (r s : Text)
    → LabelSuffix r s
    → (r ≡ s)
      ⊎ ((a : Text) × (b : Text) × (split_once dot s ≡ some (a, b))
          × (is_empty b ≡ false)
          × LabelSuffix r b)
LabelSuffix-cases r s (inl same) = inl same
LabelSuffix-cases r s (inr (p, e, filled)) = elim (Option-cases (split_once dot p)) [
  | inl whole ↦
      inr (p, r, ap (split_once dot) e ∙ split_once-inner p r ∙ ground arith, filled, inl refl)
  | inr ((a, b), cut) ↦ inr (
    a,
    b ++ dot ∷ r,
    ap (split_once dot) e ∙ split_once-inner p r ∙ ground arith,
    is_empty-inner b r,
    inr (b, refl, filled),
  )
]

suffix-blocked :
    (fuel : ℕ) (ds : List Text) (r s : Text)
    → length s < fuel
    → LabelSuffix r s
    → contains ds r ≡ true
    → blocks_loop fuel ds s ≡ true
unfolding blocks_loop
suffix-blocked zero ds r s h suffix found = absurd (omega arith)
suffix-blocked (suc fuel) ds r s h suffix found = elim (LabelSuffix-cases r s suffix) [
  | inl same ↦ ground arith
  | inr (a, b, cut, filled, later) ↦
      let ih = suffix-blocked fuel ds r b (omega (arith, length-rest s a b cut)) later found in
      ground arith
]

-- A name is blocked exactly if a rule is the name itself or what follows one of its dots: rules
-- match at label boundaries only, and the loop's rounds are enough to find any match.
pub blocks_domain-suffix :
    (ds : List Text) (name : Text)
    → (blocks_domain ds name ≡ true) ↔ ((r : Text) × LabelSuffix r name × (contains ds r ≡ true))
unfolding blocks_domain
blocks_domain-suffix ds name = (
  blocked-suffix (suc (length name)) ds name,
  λ (r, suffix, found). suffix-blocked (suc (length name)) ds r name (omega arith) suffix found,
)
