-- ===== src/Tests.antt =====
-- Runs of the definitions on concrete inputs.
mod Fixtures
mod Schedule
mod Api
mod Objects
mod Controller
mod Sleeping
mod Whole
mod Holidays
mod Gauge
mod Manager
mod Copies
mod Logged
