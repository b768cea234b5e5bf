-- ===== src/Solicitudes.antt =====
-- src/lib/solicitudes: the requests of customers, their states and the service that moves them.
pub mod PublicRequest
pub mod PublicCreation
pub mod Status
pub mod StatusRpc
pub mod UpdateStatus
pub mod ReviewStart
