-- ===== src/Lib.antt =====
-- A model of sjmb-slack, the harvester of URLs from Slack messages, and what it keeps.
--
-- The program receives messages (live over a websocket, or from the history after a gap), takes
-- the URLs out of each, checks every URL against the rules and the addresses it leads to, and
-- stores the ones that pass. The user session remembers on disk how far each channel is covered, so
-- that a restart fetches what was missed. The files follow the sources:
--
--   * Limits models src/limits.rs: Cache is `ExpiringCache`, Counters is `Counters`, LogText is
--     `log_text`.
--   * Harvest models src/harvest.rs: Timestamp is `message_timestamp`, Urls is `extract_urls`.
--   * UrlFilter models src/url_filter.rs: Address is `is_public_address`, Names is `dns_name` and
--     `blocks_domain`, Filter is `UrlFilter` with `compile`, `include` and `check`.
--   * State models src/slackbot/user_session/state.rs: State has the stored data, State.Prune is
--     `prune`, State.Store is the operations of `Store`, State.Store.Disk is `open` and `save`.
--   * Bot models src/slackbot.rs and src/db_util.rs: Names is the choice of a sender's nick, Workspace
--     is `sender_nick`, `channel_name` and `lookup_error`, Intake is `should_process_message` and
--     `prepare_message`, Worker is `handle_msg` and `handle_messages`, Database is `db_add_url`,
--     Config is `from_config`.
--   * SocketMode models src/slackbot/socket_mode.rs: Startup is `connect` and `connect_and_watch`,
--     Health the failure flag with the waits on it, Ingress is `enqueue`, Handlers the callbacks of the
--     listener, Sessions the ingress of one session after another, Backoff the delays between them.
--   * UserSession models src/slackbot/user_session.rs with its api.rs and recovery.rs: Json is the JSON
--     values, Events the free functions on events and responses, Api is `SessionApi`, Lookups is
--     `fetch_user` and `fetch_channel` of src/slackbot.rs, Connection is the log-in, the loop of `run`
--     and the start of a connection, Reader is `read_socket` with its heartbeat, Members is
--     `discover_channels`, Consumer is `consume`, Process is `Session::process`, Recovery is
--     `recover_channel` and `recover_pages`, Recovery.Pass is `recover`, Run is `run_user_sessions`.
--   * CommandLine models src/config.rs: the log level and filter of the options.
--   * Url says what the `url` crate and the parser of IP addresses answer; Prelude has the lists,
--     maps, texts and results that the modules share; Tests has runs and applied theorems.
--
-- A struct is a record, an enum a data type, and a method a function from the old state to its
-- result and the new state. The state stands behind a mutex that each method holds until it ends,
-- so a run of the program is a sequence of calls: State.Store.Bounds has them as `Call` and `run`.
-- Text is the list of its Unicode scalar values, and lengths in bytes are those of UTF-8. A map is
-- an association list in which a write replaces the entry in place, so no order is promised where
-- the source's HashMap promises none. Instants are numbers of any one unit, clock readings are
-- arguments, i64 values are integers. `usize` counters keep their wrap at 64 bits.
--
-- Where parts run side by side, the model has their interleavings: the calls of the session's API
-- start and end as separate steps on the shared pause; a change of the health, its notification, and
-- the tests and the sleep of who waits for it are separate steps; the reader of the websocket and the
-- consumer of its queue take steps in any order. The recovery and the live events share the recovery
-- state: both are reduced to calls of `Store`, and the theorems on histories of such calls hold of
-- every interleaving of theirs, but the recovery of a channel is itself modelled as running alone.
--
-- How the parts depend on each other: the reader passes events and checkpoints to the consumer, the
-- consumer and the recovery hand messages to `process`, `process` gives them to the worker and records
-- its receipt in the store, and the store decides what the next recovery fetches.
--
-- Bounds and fuel. `blocks_domain` loops over suffixes on as many rounds as the name has characters
-- and one, which its theorem shows to be enough. `discover_channels` has one hundred and one pages,
-- which its theorem shows to be enough. `recover_pages` is a loop of as many rounds as the configuration
-- allows pages, as in the source. All other loops follow a list; an endless loop of the source is a
-- list of what it meets, of any length.
--
-- Not modelled: the answers of the resolver, the file system, Slack, the websocket, the message queue
-- and PostgreSQL are arguments, and so are clock readings; regex matches, `Url::parse`, `Host::parse`,
-- the parser of addresses, the parsers of JSON, the codecs of the state file and of messages, the
-- address of the gateway, the display of an HTTP status and the range of chrono's dates are parameters.
-- The selects of `Bot::run`, of `connection` and of the Socket Mode sessions, which cancel what is left,
-- the drain of the worker with its time limit, the signal handler, the reporter, the parser of the
-- command line, tracing, the installation of a cryptography provider and build metadata are left out:
-- they are calls of libraries without state of the program's own.
pub mod Bot
pub mod CommandLine
pub mod Harvest
pub mod Limits
pub mod Prelude
pub mod SocketMode
pub mod State
pub mod Tests
pub mod Url
pub mod UrlFilter
pub mod UserSession
