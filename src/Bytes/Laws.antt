-- ===== src/Bytes/Laws.antt =====
-- What the string functions decide.
use xdccget_for_windows.Base.{
  ℕ, refl, inl, inr, true, some, [], arith, Bool-cases, ◌≡◌, ◌↔◌, ◌∷◌, ◌++◌,
}
use xdccget_for_windows.Bytes.{Bytes, str_equals, starts_with, strstr, tolower}

-- strcmp returns 0 exactly on equal strings.
pub str_equals_iff : (s t : Bytes) → (str_equals s t ≡ true) ↔ (s ≡ t)
unfolding str_equals
str_equals_iff [] [] = ground arith
str_equals_iff [] (b ∷ t) = ground arith
str_equals_iff (a ∷ s) [] = ground arith
str_equals_iff (a ∷ s) (b ∷ t) = ground (arith, str_equals_iff s t)

pub str_equals_refl : (s : Bytes) → str_equals s s ≡ true
str_equals_refl s = (str_equals_iff s s).1 refl

pub starts_with-append : (p rest : Bytes) → starts_with (p ++ rest) p ≡ true
unfolding starts_with
starts_with-append [] rest = refl
starts_with-append (b ∷ p) rest = ground (arith, starts_with-append p rest)

-- What stands at the front is a prefix.
pub starts_with_sound : (s p : Bytes) → starts_with s p ≡ true → (rest : Bytes) × (s ≡ p ++ rest)
unfolding starts_with
starts_with_sound s [] h = (s, refl)
starts_with_sound [] (b ∷ p) h = cc
starts_with_sound (a ∷ s) (b ∷ p) h =
    let (rest, e) = starts_with_sound s p (ground arith) in (rest, ground arith)

-- strstr finds an occurrence: what it returns is a suffix that begins with the pattern.
pub strstr_sound :
    (s p : Bytes) (r : Bytes)
    → strstr s p ≡ some r
    → (front : Bytes) × (s ≡ front ++ r) × (starts_with r p ≡ true)
unfolding strstr
strstr_sound [] p r h = ([], ground arith, ground arith)
strstr_sound (a ∷ s) p r h = elim (Bool-cases (starts_with (a ∷ s) p)) [
  | inl here ↦ ([], ground arith, ground arith)
  | inr later ↦
      let (front, e, begins) = strstr_sound s p r (ground arith) in
      (a ∷ front, ground arith, begins)
]

tolower_idem : (c : ℕ) → tolower (tolower c) ≡ tolower c
unfolding tolower
tolower_idem c = ground arith
