-- ===== src/Risk/Hazard.antt =====
-- What the standard checklist must refuse, and that each check is exact for its concern.
pub mod Spec
pub mod Checks
pub mod Loops
