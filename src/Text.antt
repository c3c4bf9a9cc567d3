-- ===== src/Text.antt =====
-- The text routines of the C library that the program calls, as far as it uses them.
pub mod Decimal
pub mod Scanf
