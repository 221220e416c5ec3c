-- ===== src/Sizing.antt =====
-- The amount of an order: app/order_sizing.py and app/dynamic_sizing.py.
pub mod Balance
pub mod Dynamic
