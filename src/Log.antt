-- ===== src/Log.antt =====
-- src/log.c: levels, lines and loggers.
pub mod Line
pub mod Logger
pub mod FileSink
pub mod Console
mod Tests
