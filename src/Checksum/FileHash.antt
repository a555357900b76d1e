-- ===== src/Checksum/FileHash.antt =====
-- The hash of a file: readFile and Read (file.c, file.h), getHashFromFile (hashing_algo.c), and
-- checksum_verification_thread (os_unix.c). The algorithm itself is a parameter.
pub mod Laws
use mathlib.Core.Option.{map as map_option}
use xdccget_for_windows.Base.{
  none, ◌==◌, zero, some, Option, if◌then◌else◌, ℕ, take, length, ◌+◌, drop, suc, Bool,
}
use xdccget_for_windows.Cfg.{ok, exited, Run}
use xdccget_for_windows.Checksum.{convert_hash_string_to_binary}
use xdccget_for_windows.Session.{buffer_size}
use xdccget_for_windows.Bytes.{Bytes}

-- struct HashAlgorithm: the context that init leaves, what update and final do with a context, and
-- the comparison of two hashes.
pub record HashAlgorithm : Type 1 where
  pub Context : Type 0
  pub hash_size : ℕ
  pub init : Context
  pub update : Context → Bytes → Context
  pub final : Context → Bytes
  pub equals : Bytes → Bytes → Bool

-- Read: `count` bytes, or those that are left, and what is left behind them.
unfoldable pub read_bytes : ℕ → Bytes → Bytes × Bytes
read_bytes count content = (take count content, drop count content)

module _ {C : Type 0} (callback : C → Bytes → C) (buffer_size : ℕ) where
  -- The loop of readFile; `none` is a loop that goes on.
  unfoldable pub read_chunks : ℕ → Bytes → C → Option C
  read_chunks zero content ctx = none
  read_chunks (suc fuel) content ctx =
      let (bytes, rest) = read_bytes buffer_size content in
      let later = read_chunks fuel rest (callback ctx bytes) in
      if length bytes == buffer_size then later else some (callback ctx bytes)

  -- A file that cannot be opened ends the program.
  unfoldable pub read_file : (Bytes → Option Bytes) → Bytes → C → Option (Run C)
  read_file files filename ctx = elim (files filename) [
    | none ↦ some (exited 1)
    | some content ↦ map_option ok (read_chunks (length content + 1) content ctx)
  ]

-- What the thread finds out; `misread` is a read behind the end of the expected hash.
pub data Verification : Type 0 where
  succeeded differs misread : Verification
  ends : ℕ → Verification

module _ (algo : HashAlgorithm) (buffer_size : ℕ) where
  unfoldable pub get_hash_from_file : (Bytes → Option Bytes) → Bytes → Option (Run Bytes)
  get_hash_from_file files filename =
      elim (read_file algo.update buffer_size files filename algo.init) [
        | none ↦ none
        | some (exited n) ↦ some (exited n)
        | some (ok ctx) ↦ some (ok (algo.final ctx))
      ]

  abbrev pub compare_hashes : Option Bytes → Bytes → Verification
  compare_hashes none found = misread
  compare_hashes (some expected) found = if algo.equals expected found then succeeded else differs

  unfoldable pub checksum_verification_thread :
      (Bytes → Option Bytes) → Bytes → Bytes → Option Verification
  checksum_verification_thread files expected_hash complete_path =
      elim (get_hash_from_file files complete_path) [
        | none ↦ none
        | some (exited n) ↦ some (ends n)
        | some (ok found) ↦
            some (compare_hashes (convert_hash_string_to_binary algo.hash_size expected_hash) found)
      ]
