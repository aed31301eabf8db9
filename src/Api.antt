-- ===== src/Api.antt =====
-- The package `v1alpha1` (api/v1alpha1): the custom resource, its status and its webhook.
pub mod Types
pub mod Status
pub mod Webhook
pub mod Copies
