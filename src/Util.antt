-- ===== src/Util.antt =====
-- src/util: error reports, conversions between C and MATLAB values, tables of types and options.
pub mod Table
pub mod Errors
pub mod Conversions
pub mod Socket
pub mod Sockopt
