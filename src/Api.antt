-- ===== src/Api.antt =====
-- The objects behind the C interface (src/api).
pub mod Operation
pub mod Selector
