-- ===== src/Bot/Database.antt =====
-- src/db_util.rs: the insertion of a URL. What PostgreSQL answers is an argument; the statements
-- that were sent are kept, in order.
use sjmb_slack.Prelude.{ℕ, Bool, ◌&&◌, List, [], ◌∷◌, ◌++◌, leb, if◌then◌else◌}
use sjmb_slack.Prelude.Text.{Text, len}
use sjmb_slack.Prelude.Result.{Result, ok, err}
use sjmb_slack.Harvest.Urls.{max_url_bytes}

pub record UrlCtx : Type 0 where
  pub ts : ℕ
  pub chan : Text
  pub nick : Text
  pub url : Text

-- How a statement ends within `DB_JOB_TIMEOUT`.
pub data DbAnswer : Type 0 where
  timed_out failed : DbAnswer
  rows_affected : ℕ → DbAnswer

pub data DbError : Type 0 where
  oversized_url oversized_attribution insert_timed_out insert_failed : DbError

abbrev pub to_result : DbAnswer → Result DbError ℕ
to_result timed_out = err insert_timed_out
to_result failed = err insert_failed
to_result (rows_affected n) = ok n

-- The sizes that the table takes.
abbrev pub fits_table : UrlCtx → Bool
fits_table ur = leb (len ur.chan) 1024 && leb (len ur.nick) 256

unfoldable pub db_add_url :
    (UrlCtx → DbAnswer) → UrlCtx → List UrlCtx → Result DbError ℕ × List UrlCtx
db_add_url db ur sent =
    if leb (len ur.url) max_url_bytes
    then (if fits_table ur
        then (to_result (db ur), sent ++ ur ∷ [])
        else (err oversized_attribution, sent))
    else (err oversized_url, sent)
