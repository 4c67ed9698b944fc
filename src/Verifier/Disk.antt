-- ===== src/Verifier/Disk.antt =====
-- What internal/verifier reads from the operating system: the secrets' directories and the hash
-- functions. They are parameters: a `Disk` is what the file system answers during one call.
use veilgate.Prelude.{ℕ, Bool, List, Option, Bytes}

pub record Entry : Type 0 where
  pub name : Bytes
  pub is_dir : Bool

-- Times of modification are numbers. A file is named by its directory and its name, which
-- `filepath.Join` puts together. `none` is an error.
pub record Disk : Type 0 where
  pub stat_dir : Bytes → Option ℕ
  pub read_dir : Bytes → Option (List Entry)
  pub stat : Bytes → Bytes → Option ℕ
  pub read_file : Bytes → Bytes → Option Bytes

pub record Crypto : Type 0 where
  pub sha256 : Bytes → Bytes
  pub hmac_sha256 : Bytes → Bytes → Bytes

-- What a constructor returns: a value, an error of the configuration, or one of the disk.
pub data Built (A : Type 0) : Type 0 where
  built : A → Built A
  config_error : Bytes → Built A
  disk_error : Built A
