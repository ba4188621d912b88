-- ===== src/UrlFilter/Names/Canonical.antt =====
-- Accepted names are canonical.
use sjmb_slack.Prelude.{
  ℕ, ◌≤◌, ◌≡◌, refl, ap, true, ◌||◌, List, [], ◌∷◌, ◌++◌, map, none, some, all, ◌==◌, if◌then◌else◌,
  arith, Bool-cases, inl, inr,
}
use sjmb_slack.Prelude.Text.{Text, len, is_alphanumeric, is_empty, len_utf8, len-append}
use sjmb_slack.UrlFilter.Names.{
  dot, hyphen, strip_dot, cons_first, labels, starts_with_hyphen, ends_with_hyphen, valid_label,
  lower, valid_name, dns_name,
}

strip_dot-append : (t : Text) → strip_dot (t ++ dot ∷ []) ≡ t
unfolding strip_dot
strip_dot-append [] = refl
strip_dot-append (c ∷ []) = refl
strip_dot-append (c ∷ d ∷ cs) = ap (◌∷◌ c) (strip_dot-append (d ∷ cs))

lower_idem : (c : ℕ) → lower (lower c) ≡ lower c
unfolding lower
lower_idem c = ground arith

map-lower_idem : (t : Text) → map lower (map lower t) ≡ map lower t
map-lower_idem [] = refl
map-lower_idem (c ∷ cs) = rw (lower_idem c, map-lower_idem cs)

-- What `dns_name` asks of a character it asks of its lower case.
module _ (c : ℕ) where
  lower-dot : (lower c == dot) ≡ (c == dot)
  unfolding lower
  lower-dot = ground arith

  lower-hyphen : (lower c == hyphen) ≡ (c == hyphen)
  unfolding lower
  lower-hyphen = ground arith

  lower_alphanumeric : is_alphanumeric (lower c) ≡ is_alphanumeric c
  unfolding lower
  lower_alphanumeric = ground arith

  lower_utf8 : len_utf8 (lower c) ≡ len_utf8 c
  unfolding lower
  lower_utf8 = ground arith

len-lower : (t : Text) → len (map lower t) ≡ len t
len-lower [] = refl
len-lower (c ∷ cs) = rw (lower_utf8 c, len-lower cs)

is_empty-lower : (t : Text) → is_empty (map lower t) ≡ is_empty t
is_empty-lower [] = refl
is_empty-lower (c ∷ cs) = refl

starts-lower : (t : Text) → starts_with_hyphen (map lower t) ≡ starts_with_hyphen t
starts-lower [] = refl
starts-lower (c ∷ cs) = lower-hyphen c

ends-lower : (t : Text) → ends_with_hyphen (map lower t) ≡ ends_with_hyphen t
ends-lower [] = refl
ends-lower (c ∷ []) = lower-hyphen c
ends-lower (c ∷ d ∷ cs) = ends-lower (d ∷ cs)

chars-lower :
    (t : Text)
    → all (λ c. is_alphanumeric c || c == hyphen) (map lower t)
      ≡ all (λ c. is_alphanumeric c || c == hyphen) t
chars-lower [] = refl
chars-lower (c ∷ cs) = rw (lower_alphanumeric c, lower-hyphen c, chars-lower cs)

valid_label-lower : (t : Text) → valid_label (map lower t) ≡ valid_label t
unfolding valid_label
valid_label-lower t =
    rw (is_empty-lower t, len-lower t, starts-lower t, ends-lower t, chars-lower t)

map-cons_first :
    (c : ℕ) (ls : List Text)
    → map (map lower) (cons_first c ls) ≡ cons_first (lower c) (map (map lower) ls)
map-cons_first c [] = refl
map-cons_first c (l ∷ ls) = refl

labels-lower : (t : Text) → labels (map lower t) ≡ map (map lower) (labels t)
unfolding labels
labels-lower [] = refl
labels-lower (c ∷ cs) = elim (Bool-cases (c == dot)) [
  | inl is_dot ↦ rw (lower-dot c, is_dot, labels-lower cs)
  | inr not_dot ↦ rw (lower-dot c, not_dot, labels-lower cs, map-cons_first c (labels cs))
]

all-valid_label-lower : (ls : List Text) → all valid_label (map (map lower) ls) ≡ all valid_label ls
all-valid_label-lower [] = refl
all-valid_label-lower (l ∷ ls) = rw (valid_label-lower l, all-valid_label-lower ls)

valid_name-lower : (t : Text) → valid_name (map lower t) ≡ valid_name t
unfolding valid_name
valid_name-lower t =
    rw (is_empty-lower t, len-lower t, labels-lower t, all-valid_label-lower (labels t))

dns_name_lem :
    (d : Text)
    → dns_name d
      ≡ (if valid_name (strip_dot d) then some (map lower (strip_dot d) ++ dot ∷ []) else none)
unfolding dns_name
dns_name_lem d = refl

valid_name-len : (t : Text) → valid_name t ≡ true → len t ≤ 253
unfolding valid_name
valid_name-len t h = ground arith

dns_name_inv :
    (d n : Text)
    → dns_name d ≡ some n
    → (valid_name (strip_dot d) ≡ true) × (n ≡ map lower (strip_dot d) ++ dot ∷ [])
dns_name_inv d n h = ground (arith, dns_name_lem d)

canonical_again :
    (t : Text)
    → valid_name t ≡ true
    → dns_name (map lower t ++ dot ∷ []) ≡ some (map lower t ++ dot ∷ [])
canonical_again t v = rw (
  dns_name_lem (map lower t ++ dot ∷ []),
  strip_dot-append (map lower t),
  valid_name-lower t,
  v,
  map-lower_idem t,
)

-- An accepted name is lower case and ends in the dot of the root, is of at most 254 bytes, and is
-- accepted again as it is.
pub dns_name-canonical :
    (d n : Text)
    → dns_name d ≡ some n
    → (dns_name n ≡ some n) × (len n ≤ 254) × ((t : Text) × (n ≡ t ++ dot ∷ []) × (map lower t ≡ t))
dns_name-canonical d n h =
    let (valid, e) = dns_name_inv d n h in
    let t = strip_dot d in
    (
      rw e (canonical_again t valid),
      rw (e, len-append (map lower t) (dot ∷ []), len-lower t)
          (omega (arith, valid_name-len t valid)),
      (map lower t, e, map-lower_idem t),
    )
