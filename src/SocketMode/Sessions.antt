-- ===== src/SocketMode/Sessions.antt =====
-- `run_socket_sessions` of src/slackbot/socket_mode.rs as far as the admission of events goes: the
-- sessions follow one another, each with an ingress of its own on the one cache of seen events, which
-- stops accepting when its session ends.
pub mod Once
use sjmb_slack.Prelude.{ℕ, true, false, List, [], ◌∷◌}
use sjmb_slack.SocketMode.Ingress.{Ingress}
use sjmb_slack.SocketMode.Ingress.Once.{Delivery, deliver_all}

-- The events that a session delivers, and those that come after its end, up to the shutdown of its
-- listeners.
pub record SessionEvents : Type 0 where
  pub delivered : List Delivery
  pub late : List Delivery

unfoldable pub begin_session : Ingress → Ingress
begin_session i = record i { accepting = true }

unfoldable pub end_session : Ingress → Ingress
end_session i = record i { accepting = false }

unfoldable pub run_one : SessionEvents → Ingress → Ingress
run_one s i = deliver_all s.late (end_session (deliver_all s.delivered (begin_session i)))

unfoldable pub run_socket_sessions : List SessionEvents → Ingress → Ingress
run_socket_sessions [] i = i
run_socket_sessions (s ∷ rest) i = run_socket_sessions rest (run_one s i)
