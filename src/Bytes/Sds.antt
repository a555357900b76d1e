-- ===== src/Bytes/Sds.antt =====
-- The sds library, as the program uses it. sds.c is a copy of another project: its operations are
-- parameters, and the laws state what its documentation says of them.
use xdccget_for_windows.Base.{ℕ, Bool, true, false, List, [], All, ◌≡◌, ◌≢◌, ◌||◌, ◌∷◌, ◌++◌, ◌==◌}
use xdccget_for_windows.Bytes.{Bytes}

pub record Sds : Type 0 where
  -- sdssplitlen with a separator of one byte
  pub split : Bytes → ℕ → List Bytes
  -- sdstrim
  pub trim : Bytes → Bytes → Bytes

-- The parts with the separator between them.
abbrev pub join : ℕ → List Bytes → Bytes
join sep [] = []
join sep (p ∷ []) = p
join sep (p ∷ q ∷ ps) = p ++ (sep ∷ join sep (q ∷ ps))

-- Does the byte stand in the list?
abbrev pub has_byte : ℕ → Bytes → Bool
has_byte c [] = false
has_byte c (a ∷ s) = a == c || has_byte c s

-- The text begins and ends with no byte of the set.
abbrev pub last_byte : ℕ → Bytes → ℕ
last_byte a [] = a
last_byte a (b ∷ s) = last_byte b s

abbrev pub IsBare : Bytes → Bytes → Type 0
IsBare cset [] = Unit
IsBare cset (a ∷ s) = (has_byte a cset ≡ false) × (has_byte (last_byte a s) cset ≡ false)

abbrev pub AllIn : Bytes → Bytes → Type 0
AllIn cset = All (λ c. has_byte c cset ≡ true)

pub record SdsLaws (lib : Sds) : Type 0 where
  -- "an array of sds strings": joined they give the text, and none holds the separator
  pub join-split : (s : Bytes) (sep : ℕ) → s ≢ [] → join sep (lib.split s sep) ≡ s
  pub split_free : (s : Bytes) (sep : ℕ) → All (λ p. has_byte sep p ≡ false) (lib.split s sep)
  pub split-nil : (sep : ℕ) → lib.split [] sep ≡ []
  -- "remove the part of the string from left and from right composed just of contiguous
  -- characters found in cset"
  pub trim_core :
      (cset left core right : Bytes)
      → AllIn cset left
      → AllIn cset right
      → IsBare cset core
      → lib.trim (left ++ (core ++ right)) cset ≡ core
