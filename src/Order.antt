-- ===== src/Order.antt =====
-- bundle/internal/order: what is sent to an exchange for an order.
pub mod Btcc
