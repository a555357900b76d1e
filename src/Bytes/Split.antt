-- ===== src/Bytes/Split.antt =====
-- How a text falls into parts at a separator, from the laws of sds: for the lines of the
-- configuration file, and for the lists on the command line.
use xdccget_for_windows.Bytes.{Bytes}
use xdccget_for_windows.Base.{
  ◌++◌, sym, true, ◌∷◌, All, ap, arith, append-nil, ℕ, ◌∙◌, List, refl, [], ◌≢◌, false, ◌≡◌,
}
use xdccget_for_windows.Bytes.Sds.{IsBare, has_byte, SdsLaws, join, Sds}

split_first :
    (sep : ℕ) (p q s t : Bytes)
    → has_byte sep p ≡ false
    → has_byte sep q ≡ false
    → p ++ (sep ∷ s) ≡ q ++ (sep ∷ t)
    → (p ≡ q) × (s ≡ t)
split_first sep [] [] s t hp hq e = ground arith
split_first sep [] (b ∷ q) s t hp hq e = ground arith
split_first sep (a ∷ p) [] s t hp hq e = ground arith
split_first sep (a ∷ p) (b ∷ q) s t hp hq e = ground (arith, split_first sep p q s t)

has_byte_middle : (sep : ℕ) (p s : Bytes) → has_byte sep (p ++ (sep ∷ s)) ≡ true
has_byte_middle sep [] s = ground arith
has_byte_middle sep (a ∷ p) s = ground (arith, has_byte_middle sep p s)

abbrev pub IsFree : ℕ → List Bytes → Type 0
IsFree sep = All (λ p. has_byte sep p ≡ false)

-- A text is joined from one list of free parts only.
join_injective :
    (sep : ℕ) (ps qs : List Bytes)
    → IsFree sep ps
    → IsFree sep qs
    → ps ≢ []
    → qs ≢ []
    → join sep ps ≡ join sep qs
    → ps ≡ qs
join_injective sep [] qs hp hq np nq e = absurd (np refl)
join_injective sep (p ∷ ps) [] hp hq np nq e = absurd (nq refl)
join_injective sep (p ∷ []) (q ∷ []) hp hq np nq e = ap (λ s. s ∷ []) e
join_injective sep (p ∷ []) (q ∷ q' ∷ qs) hp hq np nq e =
    ground (arith, has_byte_middle sep q (join sep (q' ∷ qs)))
join_injective sep (p ∷ p' ∷ ps) (q ∷ []) hp hq np nq e =
    ground (arith, has_byte_middle sep p (join sep (p' ∷ ps)))
join_injective sep (p ∷ p' ∷ ps) (q ∷ q' ∷ qs) hp hq np nq e =
    let (first, rest) = split_first sep p q _ _ hp.0 hq.0 e in
    let tails = join_injective sep (p' ∷ ps) (q' ∷ qs) hp.1 hq.1 (λ x. cc) (λ x. cc) rest in cc

module _ (lib : Sds) (laws : SdsLaws lib) where
  split_ne_nil : (s : Bytes) (sep : ℕ) → s ≢ [] → lib.split s sep ≢ []
  split_ne_nil s sep h e = h (sym (laws.join-split s sep h) ∙ rw e)

  -- Splitting undoes joining, for free parts that make some text.
  pub split-join :
      (sep : ℕ) (ps : List Bytes)
      → IsFree sep ps
      → join sep ps ≢ []
      → lib.split (join sep ps) sep ≡ ps
  split-join sep ps free some_text =
      join_injective sep (lib.split (join sep ps) sep) ps (laws.split_free (join sep ps) sep) free
        (split_ne_nil (join sep ps) sep some_text) (λ e. some_text (rw e))
        (laws.join-split (join sep ps) sep some_text)

  -- A text with nothing to trim is left as it is.
  pub trim_bare : (s cset : Bytes) → IsBare cset s → lib.trim s cset ≡ s
  trim_bare s cset bare = rw append-nil at (laws.trim_core cset [] s [] tt tt bare)
