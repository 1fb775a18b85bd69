-- ===== src/Api.antt =====
-- The application, src/opspilot/main.py, with the routers that only read or correct, in
-- src/opspilot/routers, and src/opspilot/logging_config.py.
pub mod Application
pub mod Inspect
pub mod ServiceMemories
pub mod EvalRuns
pub mod Logging
