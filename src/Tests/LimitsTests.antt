-- ===== src/Tests/LimitsTests.antt =====
-- The tests of src/limits.rs and src/harvest.rs, and witnesses for the theorems about them.
use sjmb_slack.Prelude.{ℕ, ◌≤◌, ◌≡◌, refl, ◌↔◌, Bool, true, [], ◌∷◌, none, some, arith, all}
use sjmb_slack.Prelude.Text.{Text, codes, text_Eq}
use sjmb_slack.Prelude.Result.{ok, err}
use sjmb_slack.Limits.Cache.{ExpiringCache, get, insert, remove, put, oldest, contains_key, evict}
use sjmb_slack.Limits.Cache.Eviction.{IsValid, insert-IsValid}
use sjmb_slack.Limits.LogText.{log_text, clean, Fits, is_plain, log_text-Fits}
use sjmb_slack.Harvest.Timestamp.{message_timestamp, decimal, i64_max, invalid, overflow}
use sjmb_slack.Harvest.Timestamp.Accepts.{Shape, message_timestamp-accepts}

abbrev a : Text
a = codes "a"

abbrev b : Text
b = codes "b"

abbrev c : Text
c = codes "c"

-- The cache of the source's test, after its first two insertions.
abbrev two : ExpiringCache Text ℕ
two = record {
  entries =
      record { key = a; expires = 10; value = 1 }
      ∷ record { key = b; expires = 20; value = 2 }
      ∷ [];
  capacity = 2;
}

two-IsValid : IsValid two
two-IsValid = record {
  positive = omega arith;
  bounded = omega arith;
  distinct = (refl, (refl, tt));
}

cache_runs :
    ((get two a 9).0 ≡ some 1)
    × ((get two a 10).0 ≡ none)
    × ((get (insert (insert two a 3 0 10) c 4 0 30) a 0).0 ≡ none)
    × ((get (insert (insert two a 3 0 10) c 4 0 30) b 0).0 ≡ some 2)
unfolding get insert put evict contains_key oldest remove
cache_runs = (refl, refl, refl, refl)

log_text_runs :
    (log_text (codes "a\r\n\u{1b}b") 20 ≡ codes "a   b")
    × (log_text (233 ∷ 233 ∷ 233 ∷ []) 5 ≡ 233 ∷ 233 ∷ [])
unfolding log_text clean
log_text_runs = (refl, refl)

any_date : ℕ → Bool
any_date n = true

timestamps :
    (message_timestamp any_date (codes "1234.567890") ≡ ok 1234)
    × (message_timestamp any_date (codes "1.2.3") ≡ err invalid)
    × (message_timestamp any_date (codes "1.") ≡ err invalid)
    × (message_timestamp any_date (codes "999999999999999999999") ≡ err overflow)
unfolding message_timestamp any_date
timestamps = (refl, refl, refl, refl)

insert-IsValid_example : IsValid (insert two c 4 0 30)
insert-IsValid_example = insert-IsValid two c 4 0 30 two-IsValid

log_text-Fits_example :
    Fits 5 (233 ∷ 10 ∷ 233 ∷ []) (log_text (233 ∷ 10 ∷ 233 ∷ []) 5)
    × (all is_plain (log_text (233 ∷ 10 ∷ 233 ∷ []) 5) ≡ true)
log_text-Fits_example = log_text-Fits (233 ∷ 10 ∷ 233 ∷ []) 5

message_timestamp-accepts_example : (message_timestamp any_date (codes "12.5") ≡ ok 12) ↔ (
    (s : Text) × Shape (codes "12.5") s
    × (decimal 0 s ≡ 12)
    × (12 ≤ i64_max)
    × (any_date 12 ≡ true))
message_timestamp-accepts_example = message_timestamp-accepts any_date (codes "12.5") 12
