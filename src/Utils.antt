-- ===== src/Utils.antt =====
-- utils/: the bytes of numbers.
pub mod Numbers
pub mod BeeMap
