-- ===== src/Fastboot/Slots/Plans.antt =====
-- What the plans of `SlotPlanner` name, by the device's answers.
use kairos_boot.Base.Expected.{Expected}
use kairos_boot.Fastboot.Slots.Listed.{Listed}
