-- ===== src/Api.antt =====
-- api/v1alpha1: the types of the DBUpgrade resource, its conditions, and the admission webhook.
pub mod Types
pub mod Conditions
pub mod Scheme
pub mod Webhook
pub mod Validity
pub mod ValidSpecs
pub mod Updates
pub mod History
pub mod Memory
pub mod Deep
pub mod Layouts
pub mod DeepCopy
pub mod Copies
pub mod Parts
