-- ===== src/Translations.antt =====
-- pkg/translations: from a snapshot of the cluster to the resources that Envoy is served.
pub mod Helper
pub mod Envoy
pub mod PortSettings
pub mod Cluster
pub mod Filter
pub mod Listener
pub mod Endpoints
pub mod Mapper
