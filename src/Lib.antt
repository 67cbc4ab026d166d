-- ===== src/Lib.antt =====
-- NEXCOMP, a lossless compressor: the container (src/adaptive.rs), the LZ77 stage (src/lz77/) and
-- the filters and codecs (src/codecs/) as functions, with the theorems that make them correct.
--
-- Parts and files:
-- - Base: numbers, lists and options over the native numbers, results (`Result` for Rust's Result,
--   `Outcome` for a call that may panic), bytes and little-endian words, bit operations.
-- - Lz77, for src/lz77/: `Token` and the constants of types.rs; Serial for serial.rs; Decoder for
--   decoder.rs; Hash for hash.rs, the head and prev arrays as functions, Hash.Plain for the search
--   that does not count steps; Mru for `MruCache` of huffman.rs; Encoder for encoder.rs, one round
--   of its loop as `step` on a `State`; Compress for mod.rs. Cover is the reading of a token
--   stream as a cover of the input, which the encoder builds and the decoder replays.
-- - Lz77.Huffman, for src/lz77/huffman.rs up to `huffman_decode_blocked_checked`: the tables of
--   lengths and offsets; Bits for `BitWriter` and `BitReader`, and Bits.Transfer for a writer and
--   a reader that fit; Codes for `canonical_codes` and `lengths_are_prefix_free`, and Codes.Apart
--   for codes none of which begins another; Table for the lookup table; Lengths for
--   `build_huffman_codes`, the heap as a sorted list and the parents as a function; Tokens for the
--   tokens of a block; Blocks for the streams.
-- - Codecs, for src/codecs/: Bcj for bcj_filter.rs; Rle for the varint and the run-length codec of
--   mod.rs, Block for its block types; Delta for the deltas and lanes of delta_ans.rs, and
--   Delta.Payload for its codec.
-- - Entropy, for src/entropy/mod.rs: Table for `build_table` and `build_decode_table`, `spread` as
--   a function; Normalize for `normalize_freqs`, with the sorts as parameters of `normalize_with`
--   and the pinned order as insertion sort; Coder for the encoder and the decoder. Coder.State
--   holds the bounds of the state and that refilling undoes renormalization, Coder.Advance the
--   arithmetic of one symbol, Coder.Flush the state at the end of the output. Counted composes the
--   three in the order of a codec.
-- - Adaptive, for src/adaptive.rs: Crc for `crc32`; Reader for `read_le`; Lengths for
--   `check_declared_lengths`, and Lengths.DeltaAns for the payloads of delta_ans.rs against it;
--   Block for one block (`select_best_codec`, `compress_block_adaptive`,
--   `decompress_block_adaptive`); Digest for the file hash; Wire for the format
--   (`adaptive_compress`, `parse_container`); Decode for `decode_block`, `group_within_budget`,
--   `write_blocks` and `try_adaptive_decompress_limited`, with what a success means in
--   Decode.Soundness; Baseline for `compress_baseline` and `decompress_baseline`, which join the
--   LZ77 encoder and the Huffman blocks; Summary for `container_format` and `codec_summary`, with
--   the names that it lists in Summary.Names
--   and their order in Summary.Order.
-- - Tests: the theorems at concrete inputs, and runs of the definitions.
--
-- How the parts interact: the container cuts its input in blocks, gives each to the codecs, keeps
-- the shortest result and writes it behind a header; decoding checks the declared lengths, runs
-- the codec, undoes the filter and checks length, checksum and file hash. The codecs stand behind
-- the record `Codecs` of Adaptive.Block, and what the container asks of them is the record
-- `CodecLaws` of Adaptive.Block.Decoding. The BLAKE3 crate is the record `Blake3` with
-- `Blake3Laws`. The classifier and the floats that it compares are parameters as well, and so is
-- the number of threads. `catch_unwind` is a case on `Outcome`. Parallel maps are maps: rayon
-- keeps the order.
--
-- Numbers are natural numbers, with the wrap-around of the machine words written out where the
-- code has it; `usize` has 64 bits. A loop is recursion on the list that it consumes, or on fuel:
-- `deserialize_loop` and `encode_loop` take the length of their input, `write_loop` the number of
-- blocks, `chunks_loop`, `rle_encode_loop` and `rle_decode_loop` the length of the data, and each
-- round consumes at least one. `renormalize` takes 8 rounds, in which a state of 64 bits is zero,
-- and `reclaim` as many passes as there is excess, since each but the last takes some. `flush`
-- takes 32 rounds, since the number of pending bits is below 256, `ensure_loop` 4, one for each
-- byte of the word, `merge` the length of the heap, which each round makes shorter by one, and
-- `climb` twice the number of symbols, which is more than the nodes of the tree.
--
-- Not modelled: the literal contexts of huffman.rs and its variants with several streams,
-- capacities of vectors, the command line, the heuristics of the classifiers, and the codecs that
-- the container takes as parameters.
pub mod Base
pub mod Lz77
pub mod Codecs
pub mod Entropy
pub mod Adaptive
mod Tests
