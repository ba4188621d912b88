-- ===== src/UrlFilter/Names.antt =====
-- `dns_name` and `blocks_domain` of src/url_filter.rs.
pub mod Canonical
pub mod Suffixes
use sjmb_slack.Prelude.{
  ℕ, zero, suc, ◌+◌, Bool, true, false, not, ◌&&◌, ◌||◌, List, [], ◌∷◌, ◌++◌, map, Option, none,
  some, leb, all, any, length, ◌==◌, if◌then◌else◌,
}
use sjmb_slack.Prelude.Text.{Text, len, is_alphanumeric, is_upper, is_empty, text_eq, split_once}

abbrev pub dot : ℕ
dot = b'.'

abbrev pub hyphen : ℕ
hyphen = b'-'

-- `strip_suffix('.').unwrap_or(domain)`.
unfoldable pub strip_dot : Text → Text
strip_dot [] = []
strip_dot (c ∷ []) = if c == dot then [] else c ∷ []
strip_dot (c ∷ d ∷ cs) = c ∷ strip_dot (d ∷ cs)

abbrev pub cons_first : ℕ → List Text → List Text
cons_first c [] = (c ∷ []) ∷ []
cons_first c (l ∷ ls) = (c ∷ l) ∷ ls

-- `split('.')`: one label more than there are dots.
unfoldable pub labels : Text → List Text
labels [] = [] ∷ []
labels (c ∷ cs) = if c == dot then [] ∷ labels cs else cons_first c (labels cs)

abbrev pub starts_with_hyphen : Text → Bool
starts_with_hyphen [] = false
starts_with_hyphen (c ∷ cs) = c == hyphen

abbrev pub ends_with_hyphen : Text → Bool
ends_with_hyphen [] = false
ends_with_hyphen (c ∷ []) = c == hyphen
ends_with_hyphen (c ∷ d ∷ cs) = ends_with_hyphen (d ∷ cs)

unfoldable pub valid_label : Text → Bool
valid_label l =
    not (is_empty l)
    && leb (len l) 63
    && not (starts_with_hyphen l)
    && not (ends_with_hyphen l)
    && all (λ c. is_alphanumeric c || c == hyphen) l

-- `to_ascii_lowercase` of a character.
unfoldable pub lower : ℕ → ℕ
lower c = if is_upper c then c + 32 else c

unfoldable pub valid_name : Text → Bool
unfolding labels valid_label
valid_name d = not (is_empty d) && leb (len d) 253 && all valid_label (labels d)

-- `none` is the error "invalid DNS name".
unfoldable pub dns_name : Text → Option Text
unfolding strip_dot valid_name lower
dns_name domain =
    let d = strip_dot domain in if valid_name d then some (map lower d ++ dot ∷ []) else none

abbrev pub contains : List Text → Text → Bool
contains ds d = any (λ x. text_eq x d) ds

-- The loop of `blocks_domain` over the suffixes; each is shorter, so as many rounds as the name has
-- characters, and one for the empty suffix, are enough.
unfoldable pub blocks_loop : ℕ → List Text → Text → Bool
blocks_loop zero domains suffix = false
blocks_loop (suc fuel) domains suffix =
    if contains domains suffix then true else elim (split_once dot suffix) [
      | none ↦ false
      | some (_, rest) ↦ elim (is_empty rest) [
        | true ↦ false
        | false ↦ blocks_loop fuel domains rest
      ]
    ]

unfoldable pub blocks_domain : List Text → Text → Bool
unfolding blocks_loop
blocks_domain domains name = blocks_loop (suc (length name)) domains name
