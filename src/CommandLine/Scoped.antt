-- ===== src/CommandLine/Scoped.antt =====
-- What the log shows.
use sjmb_slack.Prelude.{◌≡◌, true, false, ◌&&◌, leb, arith}
use sjmb_slack.CommandLine.{Level, info_level, rank, OptsCommon, get_loglevel, log_filter, shown}

-- Whatever the options, another crate's records are shown at most at the level of information, and none
-- that the program's own would not be; `trace` and `debug` open the program's own records alone.
pub log_filter-scoped :
    (opts : OptsCommon) (level : Level)
    → shown (log_filter opts) false level
      ≡ (shown (log_filter opts) true level && leb (rank level) (rank info_level))
unfolding log_filter get_loglevel
log_filter-scoped opts level = ground arith
