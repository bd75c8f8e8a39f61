-- ===== src/Bits.antt =====
-- Laws of the bit operations of C that the program uses, at every width.
pub mod Step
pub mod Xor
pub mod Fields
