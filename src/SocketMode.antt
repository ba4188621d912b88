-- ===== src/SocketMode.antt =====
-- src/slackbot/socket_mode.rs: the transport of a Slack app. The Slack client library keeps the
-- connections; what the program makes of its answers and callbacks is modelled.
pub mod Health
pub mod Startup
pub mod Sessions
pub mod Ingress
pub mod Handlers
pub mod Backoff
