-- ===== src/Transport.antt =====
-- Shared resources of the transports: the buffer budget (src/transport/buffer_budget.hpp and .cpp) and
-- the adaptive tuner (src/transport/adaptive_tuner.hpp and .cpp).
pub mod Budget
pub mod Tuner
pub mod Permit
pub mod Ring
