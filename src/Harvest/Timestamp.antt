-- ===== src/Harvest/Timestamp.antt =====
-- `message_timestamp` of src/harvest.rs. The range of chrono's dates is a parameter.
pub mod Accepts
use sjmb_slack.Prelude.{
  ℕ, ◌+◌, ◌-◌, ◌*◌, ◌^◌, Bool, true, false, not, ◌&&◌, ◌||◌, List, [], ◌∷◌, Option, none, some, leb,
  ltb, if◌then◌else◌, all, any, ◌==◌,
}
use sjmb_slack.Prelude.Text.{Text, is_digit, is_empty, split_once}
use sjmb_slack.Prelude.Result.{Result, ok, err, ◌>>=◌, ◌>>◌, ensure}

pub data TimestampError : Type 0 where
  invalid overflow out_of_range : TimestampError

-- The number that decimal digits denote, after those of `acc`.
abbrev pub decimal : ℕ → Text → ℕ
decimal acc [] = acc
decimal acc (c ∷ cs) = decimal (acc * 10 + (c - b'0')) cs

-- `parse::<i64>` of digits.
abbrev pub i64_max : ℕ
i64_max = 2 ^ 63 - 1

unfoldable pub parse_seconds : Text → Result TimestampError ℕ
parse_seconds digits =
    if leb (decimal 0 digits) i64_max then ok (decimal 0 digits) else err overflow

-- `split_once('.').unwrap_or((ts, ""))`.
abbrev pub parts : Text → Text × Text
parts ts = elim (split_once b'.' ts) [ none ↦ (ts, []) | some p ↦ p ]

abbrev pub contains_dot : Text → Bool
contains_dot ts = any (λ c. c == b'.') ts

module _ (in_range : ℕ → Bool) where
  unfoldable pub message_timestamp : Text → Result TimestampError ℕ
  unfolding parse_seconds
  message_timestamp ts =
      let (seconds, fraction) = parts ts in
      if is_empty seconds
        || not (all is_digit seconds)
        || contains_dot ts && (is_empty fraction || not (all is_digit fraction))
      then err invalid
      else do n ← parse_seconds seconds; ensure (in_range n) out_of_range; ok n
