-- ===== src/Schedule.antt =====
-- internal/controller/scheduling.go: the sleep schedule.
pub mod Weekdays
pub mod Holidays
pub mod Sleep
