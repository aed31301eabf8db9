-- ===== src/Manager.antt =====
-- cmd/main.go and what it registers with the manager: the metrics, the controller and the webhook.
pub mod Metrics
pub mod Platform
pub mod Start
