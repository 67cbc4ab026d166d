-- ===== src/Tests.antt =====
-- The theorems at concrete inputs, and runs of the definitions.
mod Lz77
mod Container
mod Codecs
mod Entropy
mod Huffman
mod Instances
