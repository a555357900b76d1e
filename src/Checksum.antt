-- ===== src/Checksum.antt =====
-- The checksum of a download: `extractMD5` (xdccget.c), which takes it from a bot's notice, and
-- `hexCharToBin`, `hexToBin` and `convertHashStringToBinary` (hashing_algo.c). The MD5 function
-- itself is a copy of another project.
pub mod FileHash
pub mod Laws
use Prim.Native.Nat.{bit_or}
use xdccget_for_windows.Bytes.{Bytes, codes, strstr}
use xdccget_for_windows.Base.{
  ℕ, length, ◌+◌, [], suc, ◌&&◌, ◌∷◌, drop, ◌^◌, take, ◌%◌, leb, ◌*◌, if◌then◌else◌, ◌-◌, zero,
  some, ltb, none, Option,
}

unfoldable pub hex_char_to_bin : ℕ → ℕ
hex_char_to_bin c =
    if leb b'0' c && leb c b'9'
    then c - b'0'
    else if leb b'a' c && leb c b'f'
    then c - b'a' + 10
    else if leb b'A' c && leb c b'F'
    then c - b'A' + 10
    else 0

-- `c1` is the high digit; the shift and the result are cut to a uchar.
unfoldable pub hex_to_bin : ℕ → ℕ → ℕ
unfolding hex_char_to_bin
hex_to_bin c1 c2 = bit_or (hex_char_to_bin c2) (hex_char_to_bin c1 * 2 ^ 4) % 2 ^ 8

-- A C string read at an index: its NUL may be read, and nothing behind it.
unfoldable pub char_at : Bytes → ℕ → Option ℕ
char_at [] zero = some 0
char_at [] (suc i) = none
char_at (c ∷ s) zero = some c
char_at (c ∷ s) (suc i) = char_at s i

-- One round: the byte of two digits in front of those of the later rounds.
convert_round : Option ℕ → Option ℕ → Option Bytes → Option Bytes
unfolding hex_to_bin
convert_round (some c1) (some c2) (some bytes) = some (hex_to_bin c1 c2 ∷ bytes)
convert_round _ _ _ = none

-- The loop, with `n` rounds left and `j` the index into the string. `none`: a read behind the NUL.
convert_from : ℕ → Bytes → ℕ → Option Bytes
unfolding convert_round char_at
convert_from zero hash_string j = some []
convert_from (suc n) hash_string j =
    convert_round (char_at hash_string j) (char_at hash_string (j + 1))
      (convert_from n hash_string (j + 2))

unfoldable pub convert_hash_string_to_binary : ℕ → Bytes → Option Bytes
unfolding convert_from
convert_hash_string_to_binary hash_size hash_string = convert_from hash_size hash_string 0

abbrev pub md5_str_size : ℕ
md5_str_size = 32

-- A hash, no hash, or a read behind the end of the message.
pub data Extracted : Type 0 where
  hash_text : Bytes → Extracted
  no_hash : Extracted
  past_end : Extracted

-- strncpy from `skip` bytes behind the start of the match.
unfoldable pub copy_hash : ℕ → Bytes → Extracted
copy_hash skip found =
    if ltb (length found) skip then past_end else hash_text (take md5_str_size (drop skip found))

unfoldable pub extract_md5 : Bytes → Extracted
extract_md5 message = elim (strstr message (codes "md5sum")) [
  | some found ↦ copy_hash 8 found
  | none ↦ elim (strstr message (codes "MD5")) [
    | some found ↦ copy_hash 4 found
    | none ↦ elim (strstr message (codes "md5")) [ some found ↦ copy_hash 4 found | none ↦ no_hash ]
  ]
]
