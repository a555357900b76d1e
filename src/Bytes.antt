-- ===== src/Bytes.antt =====
-- Byte strings, and the functions of string.h, strings.h and ctype.h that the program calls.
-- A C string is the list of the bytes in front of its NUL.
pub mod Number
pub mod Laws
pub mod Sds
pub mod Split
use xdccget_for_windows.Base.{
  ℕ, Bool, true, false, Option, none, some, List, [], map, leb, take, ◌+◌, ◌&&◌, ◌||◌, ◌∷◌, ◌==◌,
  if◌then◌else◌,
}
use Prim.Native.Char.{code}
use Prim.Native.String.{String}

abbrev pub Bytes : Type 0
Bytes = List ℕ

-- The bytes of a literal; every literal of the source is ASCII.
abbrev pub codes : String → Bytes
codes String.[] = []
codes (String.◌∷◌ c s) = code c ∷ codes s

-- strings_utils.h: strcmp(str1, str2) == 0.
unfoldable pub str_equals : Bytes → Bytes → Bool
str_equals [] [] = true
str_equals (a ∷ s) (b ∷ t) = a == b && str_equals s t
str_equals _ _ = false

-- strings_utils.h: strncmp(str1, str2, n) == 0.
unfoldable pub strn_equals : Bytes → Bytes → ℕ → Bool
unfolding str_equals
strn_equals s t n = str_equals (take n s) (take n t)

-- Does `p` stand at the front of `s`?
unfoldable pub starts_with : Bytes → Bytes → Bool
starts_with s [] = true
starts_with [] (b ∷ p) = false
starts_with (a ∷ s) (b ∷ p) = a == b && starts_with s p

-- strstr: the rest of `s` from the first occurrence of `p`.
unfoldable pub strstr : Bytes → Bytes → Option Bytes
unfolding starts_with
strstr [] p = if starts_with [] p then some [] else none
strstr (a ∷ s) p = if starts_with (a ∷ s) p then some (a ∷ s) else strstr s p

-- strchr, for a byte that is not NUL.
unfoldable pub strchr : Bytes → ℕ → Option Bytes
strchr [] c = none
strchr (a ∷ s) c = if a == c then some (a ∷ s) else strchr s c

-- tolower and isdigit, isspace of the "C" locale.
unfoldable pub tolower : ℕ → ℕ
tolower c = if leb b'A' c && leb c b'Z' then c + 32 else c

-- strcasecmp(s, t) == 0.
unfoldable pub str_case_equals : Bytes → Bytes → Bool
unfolding str_equals tolower
str_case_equals s t = str_equals (map tolower s) (map tolower t)

abbrev pub isdigit : ℕ → Bool
isdigit c = leb b'0' c && leb c b'9'

abbrev pub isspace : ℕ → Bool
isspace c = c == b' ' || leb 9 c && leb c 13
