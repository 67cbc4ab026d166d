-- ===== src/Entropy.antt =====
-- src/entropy/mod.rs: the rANS coder.
pub mod Table
pub mod Coder
pub mod Normalize
pub mod Counted
