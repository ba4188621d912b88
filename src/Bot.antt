-- ===== src/Bot.antt =====
-- src/slackbot.rs and src/db_util.rs: from a Slack message to the stored URLs.
pub mod Names
pub mod Database
pub mod Workspace
pub mod Intake
pub mod Worker
pub mod Config
