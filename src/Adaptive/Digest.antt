-- ===== src/Adaptive/Digest.antt =====
-- The file hash, BLAKE3 of the `blake3` crate: its one-shot and its incremental form.
use nexcomp.Base.{◌≡◌, List, [], ◌∷◌, ◌++◌, length}
use nexcomp.Base.Words.{Bytes}
use nexcomp.Adaptive.{file_digest_len}

pub record Blake3 (H : Type 0) : Type 0 where
  pub hash : Bytes → Bytes
  pub new : H
  pub update : H → Bytes → H
  pub finalize : H → Bytes

abbrev pub concat : List Bytes → Bytes
concat [] = []
concat (chunk ∷ chunks) = chunk ++ concat chunks

abbrev pub update_all : {H : Type 0} → Blake3 H → H → List Bytes → H
update_all b h [] = h
update_all b h (chunk ∷ chunks) = update_all b (b.update h chunk) chunks

-- The crate's documentation: a hash has 32 bytes, and hashing in pieces hashes their concatenation.
pub record Blake3Laws {H : Type 0} (b : Blake3 H) : Type 0 where
  pub hash_length : (bytes : Bytes) → length (b.hash bytes) ≡ file_digest_len
  pub incremental :
      (chunks : List Bytes) → b.finalize (update_all b b.new chunks) ≡ b.hash (concat chunks)
