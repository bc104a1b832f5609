-- ===== src/Blobstore.antt =====
-- daemon/internal/blobstore/blobstore.go: bodies kept under the digest of their content.
pub mod RoundTrip
mod Examples
use deconstruct.Base.{
  Text, codes, Bool, true, false, [], ◌∷◌, ◌++◌, text_eq, is_empty, if◌then◌else◌,
}
use deconstruct.Action.{Action, ◌>>=◌, fail, yield}
use deconstruct.Store.{Result, done, failed}

-- The file system and the libraries: `stat` tells whether a file is there, `digest` is SHA-256 in
-- hexadecimal, and `compress` and `decompress` are zstd.
pub record Disk (W : Type 0) : Type 0 where
  pub stat : Text → W → Result Bool
  pub read_file : Text → W → Result Text
  pub write_file : Text → Text → Action W Unit
  pub digest : Text → Text
  pub compress : Text → Result Text
  pub decompress : Text → Result Text

-- `filepath.Join` for a clean root and a hash without separators
unfoldable pub blob_path : Text → Text → Text
blob_path root hash = root ++ (codes "/sha256/" ++ (hash ++ codes ".bin.zst"))

module _ {W : Type 0} (disk : Disk W) (root : Text) where
  -- the file is written unless it is there
  unfoldable pub write_blob : Text → Text → Action W Text
  write_blob hash body = elim (disk.compress body) [
    | failed e ↦ fail e
    | done compressed ↦ do _ ← disk.write_file (blob_path root hash) compressed; yield hash
  ]

  unfoldable pub put_under : Text → Text → Action W Text
  put_under hash body w = elim (disk.stat (blob_path root hash) w) [
    | failed e ↦ (failed (codes "stat blob: " ++ e), w)
    | done true ↦ (done hash, w)
    | done false ↦ write_blob hash body w
  ]

  unfoldable pub put : Text → Action W Text
  put body = if is_empty body then yield [] else put_under (disk.digest body) body

  unfoldable pub checked : Text → Text → Result Text
  checked hash body =
      if text_eq (disk.digest body) hash
      then done body
      else failed (codes "blob hash mismatch: " ++ hash)

  unfoldable pub get : Text → W → Result Text
  get hash w = elim (disk.read_file (blob_path root hash) w) [
    | failed e ↦ failed (codes "open blob: " ++ e)
    | done content ↦ elim (disk.decompress content) [
      | failed e ↦ failed (codes "read blob: " ++ e)
      | done body ↦ checked hash body
    ]
  ]
