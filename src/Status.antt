-- ===== src/Status.antt =====
-- internal/pkg/manager/status: what the operator reports of its components.
pub mod Component
pub mod Manager
pub mod PodHealth
pub mod Instance
pub mod Conditions
pub mod Kafka
pub mod Crd
pub mod Events
pub mod Namespace
mod Examples
