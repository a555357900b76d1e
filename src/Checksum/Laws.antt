-- ===== src/Checksum/Laws.antt =====
-- A hash that is written in hexadecimal digits is read back from a notice.
use xdccget_for_windows.Bytes.{Bytes, codes, strstr}
use xdccget_for_windows.Base.{
  ℕ, Bool, true, ◌+◌, [], ==_iff, suc, ◌<◌, ◌∷◌, ◌≡◌, ◌%◌, ◌==◌, arith, if◌then◌else◌, ◌-◌, zero,
  refl, ◌/◌, ltb, ◌*◌, ◌∙◌, ap, some, length, All, ◌++◌, ap₂, append-nil, sym, length-append,
  take-length-append, drop-length-append, take, drop, false, inr, inl, Bool-cases,
}
use xdccget_for_windows.Checksum.{
  hex_to_bin, char_at, convert_from, hash_text, convert_hash_string_to_binary, extract_md5,
  copy_hash, convert_round, md5_str_size,
}

-- The lower-case digit of a value below 16.
abbrev pub hex_digit : ℕ → ℕ
hex_digit d = if ltb d 10 then b'0' + d else b'a' + (d - 10)

-- The two digits of each byte, the high one first.
abbrev pub to_hex : Bytes → Bytes
to_hex [] = []
to_hex (b ∷ bytes) = hex_digit (b / 16) ∷ hex_digit (b % 16) ∷ to_hex bytes

-- The two digits of `b` are read back as `b`, and so are those of every byte under it.
reads_back : ℕ → Bool
reads_back b = hex_to_bin (hex_digit (b / 16)) (hex_digit (b % 16)) == b

read_back_under : ℕ → Bool
unfolding reads_back
read_back_under zero = true
read_back_under (suc b) = if reads_back b then read_back_under b else false

reads_back_at : (limit b : ℕ) → read_back_under limit ≡ true → b < limit → reads_back b ≡ true
unfolding read_back_under
reads_back_at zero b all under = absurd (omega arith)
reads_back_at (suc limit) b all under = elim (Bool-cases (reads_back limit)) [
  | inl good ↦ ground (arith, good, reads_back_at limit b)
  | inr bad ↦ absurd (ground (arith, bad))
]

all_bytes_read_back : read_back_under 256 ≡ true
unfolding read_back_under hex_to_bin
all_bytes_read_back = refl

hex_to_bin-hex_digit : (b : ℕ) → b < 256 → hex_to_bin (hex_digit (b / 16)) (hex_digit (b % 16)) ≡ b
unfolding reads_back
hex_to_bin-hex_digit b h = (==_iff _ b).0 (reads_back_at 256 b all_bytes_read_back h)

char_at-shift : (c d : ℕ) (s : Bytes) (j : ℕ) → char_at (c ∷ d ∷ s) (j + 2) ≡ char_at s j
unfolding char_at
char_at-shift c d s j = ap (char_at (c ∷ d ∷ s)) two
  where
    two : j + 2 ≡ suc (suc j)
    two = omega arith

convert_from-shift :
    (n c d : ℕ) (s : Bytes) (j : ℕ) → convert_from n (c ∷ d ∷ s) (j + 2) ≡ convert_from n s j
unfolding convert_from
convert_from-shift zero c d s j = refl
convert_from-shift (suc n) c d s j =
    ap₂ (λ a b. convert_round a b (convert_from n (c ∷ d ∷ s) (j + 2 + 2))) (char_at-shift c d s j)
      second
    ∙ ap (convert_round (char_at s j) (char_at s (j + 1))) (convert_from-shift n c d s (j + 2))
  where
    one_more : j + 2 + 1 ≡ j + 1 + 2
    one_more = omega arith

    second : char_at (c ∷ d ∷ s) (j + 2 + 1) ≡ char_at s (j + 1)
    second = ap (char_at (c ∷ d ∷ s)) one_more ∙ char_at-shift c d s (j + 1)

abbrev pub IsBytes : Bytes → Type 0
IsBytes = All (λ b. b < 256)

convert_from-to_hex :
    (bytes rest : Bytes)
    → IsBytes bytes
    → convert_from (length bytes) (to_hex bytes ++ rest) 0 ≡ some bytes
unfolding convert_from
convert_from-to_hex [] rest h = refl
convert_from-to_hex (b ∷ bytes) rest h =
    let high = hex_digit (b / 16) in
    let low = hex_digit (b % 16) in
    let later =
      convert_from-shift (length bytes) high low (to_hex bytes ++ rest) 0
      ∙ convert_from-to_hex bytes rest h.1 in
    ap (convert_round (some high) (some low)) later
    ∙ ap (λ a. some (a ∷ bytes)) (hex_to_bin-hex_digit b h.0)

-- The hexadecimal digits of a hash, whatever follows them, are read back as the hash.
pub convert_hash_string_to_binary-to_hex :
    (hash rest : Bytes)
    → IsBytes hash
    → convert_hash_string_to_binary (length hash) (to_hex hash ++ rest) ≡ some hash
unfolding convert_hash_string_to_binary
convert_hash_string_to_binary-to_hex hash rest h = convert_from-to_hex hash rest h

length-to_hex : (bytes : Bytes) → length (to_hex bytes) ≡ length bytes * 2
length-to_hex [] = refl
length-to_hex (b ∷ bytes) = omega (arith, length-to_hex bytes)

copy_hash-to_hex :
    (front rest hash : Bytes)
    → length front ≡ 8
    → length hash ≡ 16
    → copy_hash 8 (front ++ (to_hex hash ++ rest)) ≡ hash_text (to_hex hash)
unfolding copy_hash
copy_hash-to_hex front rest hash lf lh = ground (arith, long_enough, cut)
  where
    long_enough : length (front ++ (to_hex hash ++ rest)) ≡ 8 + length (to_hex hash ++ rest)
    long_enough = omega (arith, length-append front (to_hex hash ++ rest))

    digits : md5_str_size ≡ length (to_hex hash)
    digits = omega (arith, length-to_hex hash)

    cut : take md5_str_size (drop 8 (front ++ (to_hex hash ++ rest))) ≡ to_hex hash
    cut =
        ap (λ n. take md5_str_size (drop n (front ++ (to_hex hash ++ rest)))) (sym lf)
        ∙ ap (take md5_str_size) (drop-length-append front (to_hex hash ++ rest))
        ∙ ap (λ n. take n (to_hex hash ++ rest)) digits
        ∙ take-length-append (to_hex hash) rest

-- A message whose first "md5sum" is followed by two bytes and the 32 digits of a hash gives these
-- digits, and they are read back as the hash.
pub extract_md5-to_hex :
    (message rest hash : Bytes) (c d : ℕ)
    → strstr message (codes "md5sum") ≡ some (codes "md5sum" ++ (c ∷ d ∷ (to_hex hash ++ rest)))
    → length hash ≡ 16
    → IsBytes hash
    → (extract_md5 message ≡ hash_text (to_hex hash))
      × (convert_hash_string_to_binary 16 (to_hex hash) ≡ some hash)
unfolding extract_md5
extract_md5-to_hex message rest hash c d e l h = (
  rw (e, extract_md5) (copy_hash-to_hex (codes "md5sum" ++ (c ∷ d ∷ [])) rest hash refl l),
  ap (λ n. convert_hash_string_to_binary n (to_hex hash)) (sym l)
      ∙ ap (convert_hash_string_to_binary (length hash)) (sym (append-nil (to_hex hash)))
      ∙ convert_hash_string_to_binary-to_hex hash [] h,
)
