-- ===== src/UserSession.antt =====
-- src/slackbot/user_session.rs with its api.rs and recovery.rs: the user session, from its requests and
-- its websocket to the recovery state.
pub mod Json
pub mod Events
pub mod Process
pub mod Recovery
pub mod Api
pub mod Lookups
pub mod Reader
pub mod Members
pub mod Consumer
pub mod Connection
pub mod Run
