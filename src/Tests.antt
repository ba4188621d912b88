-- ===== src/Tests.antt =====
-- Runs of the model at concrete inputs, and the theorems applied there.
mod LimitsTests
mod StateTests
mod UrlFilterTests
mod BotTests
mod SessionTests
mod ApiTests
mod ReaderTests
mod RecoveryTests
mod SocketTests
mod RunTests
