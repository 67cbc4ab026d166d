-- ===== src/Codecs.antt =====
-- src/codecs: the filters and codecs that work on one block.
pub mod Bcj
pub mod Rle
pub mod Block
pub mod Delta
