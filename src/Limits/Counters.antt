-- ===== src/Limits/Counters.antt =====
-- `Counters` of src/limits.rs: one `AtomicUsize` for each reason to discard an item. The relaxed
-- atomics are read and written one at a time, so an operation is a function of the record.
use sjmb_slack.Prelude.{ℕ, ◌+◌, ◌%◌, ◌^◌, ◌≡◌, List, [], ◌∷◌, ◌++◌, arith, ltb, if◌then◌else◌}

pub record Counters : Type 0 where
  pub full : ℕ
  pub expired : ℕ
  pub oversized_messages : ℕ
  pub oversized_urls : ℕ
  pub invalid : ℕ
  pub duplicates : ℕ

abbrev pub zero_counters : Counters
zero_counters = record {
  full = 0;
  expired = 0;
  oversized_messages = 0;
  oversized_urls = 0;
  invalid = 0;
  duplicates = 0;
}

-- `fetch_add(1, Relaxed)` on a 64-bit `usize`, which wraps.
unfoldable pub fetch_add : ℕ → ℕ
fetch_add n = (n + 1) % 2 ^ 64

pub data Counter : Type 0 where
  full expired oversized_messages oversized_urls invalid duplicates : Counter

abbrev pub bump : Counter → Counters → Counters
bump Counter.full c = record c { full = fetch_add c.full }
bump Counter.expired c = record c { expired = fetch_add c.expired }
bump Counter.oversized_messages c = record c { oversized_messages = fetch_add c.oversized_messages }
bump Counter.oversized_urls c = record c { oversized_urls = fetch_add c.oversized_urls }
bump Counter.invalid c = record c { invalid = fetch_add c.invalid }
bump Counter.duplicates c = record c { duplicates = fetch_add c.duplicates }

-- A line that `report` logs: the count and its reason.
pub record Line : Type 0 where
  pub count : ℕ
  pub reason : Counter

line : ℕ → Counter → List Line
line n r = if ltb 0 n then record { count = n; reason = r } ∷ [] else []

-- `report`: each counter is swapped with 0, and logged if it was positive.
unfoldable pub report : Counters → List Line × Counters
unfolding line
report c = (
  line c.full full
      ++ (line c.expired expired
          ++ (line c.oversized_messages oversized_messages
              ++ (line c.oversized_urls oversized_urls
                  ++ (line c.invalid invalid ++ line c.duplicates duplicates)))),
  zero_counters,
)

-- What the log lines say of a reason.
abbrev pub logged : Counter → List Line → ℕ
logged r [] = 0
logged r (l ∷ ls) = same r l.reason l.count + logged r ls
  where
    same : Counter → Counter → ℕ → ℕ
    same Counter.full Counter.full n = n
    same Counter.expired Counter.expired n = n
    same Counter.oversized_messages Counter.oversized_messages n = n
    same Counter.oversized_urls Counter.oversized_urls n = n
    same Counter.invalid Counter.invalid n = n
    same Counter.duplicates Counter.duplicates n = n
    same _ _ n = 0

abbrev pub value : Counter → Counters → ℕ
value Counter.full c = c.full
value Counter.expired c = c.expired
value Counter.oversized_messages c = c.oversized_messages
value Counter.oversized_urls c = c.oversized_urls
value Counter.invalid c = c.invalid
value Counter.duplicates c = c.duplicates

-- A report loses no count: what it logs of a reason and what it leaves add up to the counter.
pub report-keeps_count :
    (r : Counter) (c : Counters) → logged r (report c).0 + value r (report c).1 ≡ value r c
unfolding report
report-keeps_count Counter.full c = ground arith
report-keeps_count _ c = ground arith
