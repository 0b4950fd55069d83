-- ===== src/Base/Expected.antt =====
-- `std::expected`.
pub data Expected (A E : Type 0) : Type 0 where
  value : A → Expected A E
  unexpected : E → Expected A E
