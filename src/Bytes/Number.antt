-- ===== src/Bytes/Number.antt =====
-- strtoul with base 0, and the conversions %d, %lu and %Ns of sscanf, on an LP64 system.
use xdccget_for_windows.Base.{
  ℕ, zero, suc, Bool, true, false, Option, none, some, [], ltb, leb, ◌+◌, ◌-◌, ◌*◌, ◌%◌, ◌^◌, ◌&&◌,
  ◌||◌, ◌∷◌, ◌==◌, if◌then◌else◌,
}
use xdccget_for_windows.Bytes.{Bytes, isdigit, isspace}

-- ULONG_MAX.
abbrev pub ulong_max : ℕ
ulong_max = 2 ^ 64 - 1

unfoldable pub skip_spaces : Bytes → Bytes
skip_spaces [] = []
skip_spaces (c ∷ s) = if isspace c then skip_spaces s else c ∷ s

-- The value of a digit; 99 stands for "no digit".
unfoldable pub digit_value : ℕ → ℕ
digit_value c =
    if isdigit c
    then c - b'0'
    else if leb b'a' c && leb c b'z'
    then c - b'a' + 10
    else if leb b'A' c && leb c b'Z'
    then c - b'A' + 10
    else 99

-- The digits at the front, as a number that is not yet held to a width.
unfoldable pub read_digits : ℕ → ℕ → Bytes → ℕ
unfolding digit_value
read_digits base acc [] = acc
read_digits base acc (c ∷ s) =
    let rest = read_digits base (acc * base + digit_value c) s in
    if ltb (digit_value c) base then rest else acc

is_hex_digit : Bytes → Bool
is_hex_digit [] = false
is_hex_digit (c ∷ s) = ltb (digit_value c) 16

-- The magnitude behind the sign: "0x" and a digit select base 16, "0" base 8.
unfoldable pub read_auto : Bytes → ℕ
unfolding is_hex_digit read_digits
read_auto [] = 0
read_auto (c ∷ []) = read_digits 10 0 (c ∷ [])
read_auto (c ∷ d ∷ s) =
    if c == b'0'
    then (if (d == b'x' || d == b'X') && is_hex_digit s
        then read_digits 16 0 s
        else read_digits 8 0 (d ∷ s))
    else read_digits 10 0 (c ∷ d ∷ s)

-- Overflow gives ULONG_MAX; a minus sign negates in unsigned long.
unfoldable pub saturate : Bool → ℕ → ℕ
saturate negative n =
    if ltb ulong_max n then ulong_max else if negative then (2 ^ 64 - n) % 2 ^ 64 else n

signed : (Bytes → ℕ) → Bytes → ℕ
unfolding saturate
signed read [] = saturate false (read [])
signed read (c ∷ s) =
    if c == b'-'
    then saturate true (read s)
    else if c == b'+'
    then saturate false (read s)
    else saturate false (read (c ∷ s))

-- strtoul(s, NULL, 0)
unfoldable pub strtoul : Bytes → ℕ
unfolding signed read_auto skip_spaces
strtoul s = signed read_auto (skip_spaces s)

-- The digits at the front, and what follows them.
unfoldable pub span_digits : Bytes → Bytes × Bytes
span_digits [] = ([], [])
span_digits (c ∷ s) =
    let rest = span_digits s in if isdigit c then (c ∷ rest.0, rest.1) else ([], c ∷ s)

sign_of : Bytes → Bool × Bytes
sign_of [] = (false, [])
sign_of (c ∷ s) = if c == b'-' then (true, s) else if c == b'+' then (false, s) else (false, c ∷ s)

with_digits : Bool → Bytes × Bytes → Option (ℕ × Bytes)
unfolding read_digits saturate
with_digits negative ([], rest) = none
with_digits negative (d ∷ ds, rest) = some (saturate negative (read_digits 10 0 (d ∷ ds)), rest)

-- The conversions %lu and %d; the latter keeps the low 32 bits, the bit pattern of an int.
unfoldable pub scan_ulong : Bytes → Option (ℕ × Bytes)
unfolding skip_spaces sign_of span_digits with_digits
scan_ulong s = let (negative, t) = sign_of (skip_spaces s) in with_digits negative (span_digits t)

unfoldable pub span_word : ℕ → Bytes → Bytes
span_word zero s = []
span_word (suc n) [] = []
span_word (suc n) (c ∷ s) = let rest = span_word n s in if isspace c then [] else c ∷ rest

-- The conversion %100s: at most 100 bytes, none of them blank, and at least one.
unfoldable pub scan_word : Bytes → Option Bytes
unfolding span_word skip_spaces
scan_word s = elim (span_word 100 (skip_spaces s)) [ [] ↦ none | c ∷ w ↦ some (c ∷ w) ]
