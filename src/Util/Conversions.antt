-- ===== src/Util/Conversions.antt =====
-- src/util/conversions.c: between C values in memory and MATLAB arrays.
pub mod Matrix
pub mod ToM
pub mod FromM
