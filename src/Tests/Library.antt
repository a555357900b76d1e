-- ===== src/Tests/Library.antt =====
-- sds's split and trim, as its documentation has them, for the examples.
use xdccget_for_windows.Bytes.Sds.{Sds, has_byte, join, SdsLaws, IsBare, AllIn, last_byte}
use xdccget_for_windows.Base.{
  List, ◌∷◌, if◌then◌else◌, ℕ, ◌==◌, [], ap₂, Bool-cases, inl, ap, false, ◌++◌, ◌∙◌, All, inr, sym,
  ◌≡◌, refl, ==_iff, append-nil, ◌≢◌,
}
use xdccget_for_windows.Bytes.{Bytes}

-- The parts of a text that is not empty.
abbrev put : ℕ → List Bytes → List Bytes
put c [] = (c ∷ []) ∷ []
put c (p ∷ ps) = (c ∷ p) ∷ ps

unfoldable pub split_parts : Bytes → ℕ → List Bytes
split_parts [] sep = [] ∷ []
split_parts (c ∷ s) sep = let rest = split_parts s sep in if c == sep then [] ∷ rest else put c rest

unfoldable pub split_text : Bytes → ℕ → List Bytes
unfolding split_parts
split_text [] sep = []
split_text (c ∷ s) sep = split_parts (c ∷ s) sep

unfoldable pub trim_left : Bytes → Bytes → Bytes
trim_left [] cset = []
trim_left (c ∷ s) cset = let rest = trim_left s cset in if has_byte c cset then rest else c ∷ s

-- `c` goes unless it is in the set and nothing is left behind it.
abbrev keep : Bytes → ℕ → Bytes → Bytes
keep cset c [] = if has_byte c cset then [] else c ∷ []
keep cset c (d ∷ s) = c ∷ d ∷ s

unfoldable pub trim_right : Bytes → Bytes → Bytes
trim_right [] cset = []
trim_right (c ∷ s) cset = keep cset c (trim_right s cset)

abbrev pub test_sds : Sds
unfolding split_text trim_left trim_right
test_sds = record { split = split_text; trim = λ s cset. trim_right (trim_left s cset) cset }

join-put : (sep c : ℕ) (ps : List Bytes) → join sep (put c ps) ≡ c ∷ join sep ps
join-put sep c [] = refl
join-put sep c (p ∷ []) = refl
join-put sep c (p ∷ q ∷ ps) = refl

split_parts_some :
    (s : Bytes) (sep : ℕ) → (p : Bytes) × (ps : List Bytes) × (split_parts s sep ≡ p ∷ ps)
unfolding split_parts
split_parts_some [] sep = ([], [], refl)
split_parts_some (c ∷ s) sep =
    let (p, ps, e) = split_parts_some s sep in
    elim (Bool-cases (c == sep)) [
      | inl t ↦ ([], split_parts s sep, rw (split_parts, t) refl)
      | inr f ↦ (c ∷ p, ps, rw (split_parts, f, e) refl)
    ]

join-empty :
    (sep : ℕ) (ps : List Bytes) (p : Bytes) (qs : List Bytes)
    → ps ≡ p ∷ qs
    → join sep ([] ∷ ps) ≡ sep ∷ join sep ps
join-empty sep [] p qs e = absurd cc
join-empty sep (q ∷ ps) p qs e = refl

join-split_parts : (s : Bytes) (sep : ℕ) → join sep (split_parts s sep) ≡ s
unfolding split_parts
join-split_parts [] sep = refl
join-split_parts (c ∷ s) sep =
    let (p, ps, e) = split_parts_some s sep in
    elim (Bool-cases (c == sep)) [
      | inl t ↦
          rw (split_parts, t)
            (join-empty sep (split_parts s sep) p ps e
              ∙ ap₂ ◌∷◌ (sym ((==_iff c sep).0 t)) (join-split_parts s sep))
      | inr f ↦
          rw (split_parts, f)
            (join-put sep c (split_parts s sep) ∙ ap (◌∷◌ c) (join-split_parts s sep))
    ]

put_free :
    (sep c : ℕ) (ps : List Bytes)
    → (c == sep) ≡ false
    → All (λ p. has_byte sep p ≡ false) ps
    → All (λ p. has_byte sep p ≡ false) (put c ps)
put_free sep c [] f h = (rw (f) refl, tt)
put_free sep c (p ∷ ps) f (e, h) = (rw (f, e) refl, h)

split_parts_free : (s : Bytes) (sep : ℕ) → All (λ p. has_byte sep p ≡ false) (split_parts s sep)
unfolding split_parts
split_parts_free [] sep = (refl, tt)
split_parts_free (c ∷ s) sep = elim (Bool-cases (c == sep)) [
  | inl t ↦ rw (split_parts, t) (refl, split_parts_free s sep)
  | inr f ↦ rw (split_parts, f) (put_free sep c (split_parts s sep) f (split_parts_free s sep))
]

trim_left_drops :
    (cset left rest : Bytes) → AllIn cset left → trim_left (left ++ rest) cset ≡ trim_left rest cset
unfolding trim_left
trim_left_drops cset [] rest h = refl
trim_left_drops cset (c ∷ left) rest (e, h) = rw (trim_left, e) (trim_left_drops cset left rest h)

trim_right_drops : (cset right : Bytes) → AllIn cset right → trim_right right cset ≡ []
unfolding trim_right
trim_right_drops cset [] h = refl
trim_right_drops cset (c ∷ right) (e, h) = rw (trim_right, trim_right_drops cset right h, e) refl

trim_right_keeps :
    (cset right : Bytes) (c : ℕ) (core : Bytes)
    → AllIn cset right
    → has_byte (last_byte c core) cset ≡ false
    → trim_right (c ∷ (core ++ right)) cset ≡ c ∷ core
unfolding trim_right
trim_right_keeps cset right c [] h e = rw (trim_right, trim_right_drops cset right h, e) refl
trim_right_keeps cset right c (d ∷ core) h e =
    ap (keep cset c) (trim_right_keeps cset right d core h e)

trim_left_keeps :
    (cset : Bytes) (c : ℕ) (s : Bytes) → has_byte c cset ≡ false → trim_left (c ∷ s) cset ≡ c ∷ s
unfolding trim_left
trim_left_keeps cset c s e = rw (trim_left, e) refl

trims :
    (cset left core right : Bytes)
    → AllIn cset left
    → AllIn cset right
    → IsBare cset core
    → trim_right (trim_left (left ++ (core ++ right)) cset) cset ≡ core
unfolding trim_left trim_right
trims cset left [] right hl hr b =
    ap (λ s. trim_right s cset) (trim_left_drops cset left right hl)
    ∙ ap (λ s. trim_right s cset)
        (ap (λ s. trim_left s cset) (sym (append-nil right)) ∙ trim_left_drops cset right [] hr)
trims cset left (c ∷ core) right hl hr (b, e) =
    ap (λ s. trim_right s cset)
      (trim_left_drops cset left ((c ∷ core) ++ right) hl
        ∙ trim_left_keeps cset c (core ++ right) b)
    ∙ trim_right_keeps cset right c core hr e

join-split_text : (s : Bytes) (sep : ℕ) → s ≢ [] → join sep (split_text s sep) ≡ s
unfolding split_text
join-split_text [] sep ne = absurd (ne refl)
join-split_text (c ∷ s) sep ne = join-split_parts (c ∷ s) sep

split_text_free : (s : Bytes) (sep : ℕ) → All (λ p. has_byte sep p ≡ false) (split_text s sep)
unfolding split_text
split_text_free [] sep = tt
split_text_free (c ∷ s) sep = split_parts_free (c ∷ s) sep

pub test_sds_laws : SdsLaws test_sds
unfolding test_sds split_text
test_sds_laws = record {
  join-split = join-split_text;
  split_free = split_text_free;
  split-nil = λ sep. refl;
  trim_core = trims;
}
