-- ===== src/Pedidos.antt =====
-- src/lib/pedidos: the orders of the shop.
pub mod Status
pub mod TaskProgress
pub mod StatusRpc
pub mod UpdateStatus
pub mod Payments
pub mod PaymentRpc
pub mod UpdatePayment
pub mod OrderValidation
