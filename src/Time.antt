-- ===== src/Time.antt =====
-- What the program uses of Go's package `time`.
pub mod Calendar
pub mod Clock
pub mod Parse
