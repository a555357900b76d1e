-- ===== src/ConfigFile/Laws.antt =====
-- What the lines of the configuration file do, from their text to the callbacks.
use xdccget_for_windows.Bytes.{Bytes}
use xdccget_for_windows.Bytes.Sds.{AllIn, IsBare, has_byte, last_byte, Sds, SdsLaws, join}
use xdccget_for_windows.Base.{
  ◌||◌, ◌++◌, ℕ, arith, refl, ◌∷◌, false, ◌≡◌, [], ◌==◌, if◌then◌else◌, List, ap, ◌∙◌, ◌≢◌, map,
  All, append_assoc, append-nil, sym,
}
use xdccget_for_windows.Options.{blanks, Env}
use xdccget_for_windows.ConfigFile.{
  line_blanks, config_line_callbacks, ignore_line, call_matching, parse_config_line, parse_lines,
  call_parts, parse_config_string,
}
use xdccget_for_windows.Cfg.{Run, ok, ◌>>=◌, XdccGetConfig}
use xdccget_for_windows.Bytes.Split.{split-join, IsFree}
use xdccget_for_windows.Cfg.Laws.{bind_ext}

-- A line as it is written: an empty one, a remark, or a setting with blanks around its parts.
pub data Line : Type 0 where
  empty : Bytes → Line
  remark : Bytes → Bytes → Bytes → Line
  setting : Bytes → Bytes → Bytes → Bytes → Bytes → Bytes → Line

abbrev pub line_core : Line → Bytes
line_core (empty lead) = []
line_core (remark lead text trail) = b'#' ∷ text
line_core (setting lead name before after value trail) =
    (name ++ before) ++ (b'=' ∷ (after ++ value))

abbrev pub render_line : Line → Bytes
render_line (empty lead) = lead
render_line (remark lead text trail) = lead ++ ((b'#' ∷ text) ++ trail)
render_line (setting lead name before after value trail) =
    lead ++ (((name ++ before) ++ (b'=' ∷ (after ++ value))) ++ trail)

-- A type or a value: some text, with no blank at its ends and no '=' in it.
abbrev pub IsWord : Bytes → Type 0
IsWord [] = ⊥
IsWord (c ∷ s) = IsBare line_blanks (c ∷ s) × (has_byte b'=' (c ∷ s) ≡ false)

abbrev pub NotRemark : Bytes → Type 0
NotRemark [] = ⊥
NotRemark (c ∷ s) = (c == b'#') ≡ false

abbrev pub IsLine : Line → Type 0
IsLine (empty lead) = AllIn line_blanks lead × (has_byte b'\n' lead ≡ false)
IsLine (remark lead text trail) =
    AllIn line_blanks lead
    × AllIn line_blanks trail
    × IsBare line_blanks (b'#' ∷ text)
    × (has_byte b'\n' (render_line (remark lead text trail)) ≡ false)
IsLine (setting lead name before after value trail) =
    AllIn line_blanks lead
    × AllIn line_blanks trail
    × AllIn blanks before
    × AllIn blanks after
    × IsWord name
    × NotRemark name
    × IsWord value
    × (has_byte b'\n' (render_line (setting lead name before after value trail)) ≡ false)

last_byte-append :
    (a : ℕ) (s : Bytes) (b : ℕ) (t : Bytes) → last_byte a (s ++ (b ∷ t)) ≡ last_byte b t
last_byte-append a [] b t = refl
last_byte-append a (c ∷ s) b t = last_byte-append c s b t

has_byte-append : (c : ℕ) (s t : Bytes) → has_byte c (s ++ t) ≡ (has_byte c s || has_byte c t)
has_byte-append c [] t = refl
has_byte-append c (a ∷ s) t = ground (arith, has_byte-append c s t)

blank_free : (s : Bytes) → AllIn blanks s → has_byte b'=' s ≡ false
blank_free [] h = refl
blank_free (c ∷ s) h = ground (arith, blank_free s h.1)

bare_blanks : (c : ℕ) → has_byte c line_blanks ≡ false → has_byte c blanks ≡ false
bare_blanks c h = ground arith

IsBare-blanks : (s : Bytes) → IsBare line_blanks s → IsBare blanks s
IsBare-blanks [] h = tt
IsBare-blanks (c ∷ s) h = (bare_blanks c h.0, bare_blanks (last_byte c s) h.1)

core-IsBare :
    (name before after value : Bytes)
    → IsWord name
    → IsWord value
    → IsBare line_blanks ((name ++ before) ++ (b'=' ∷ (after ++ value)))
core-IsBare [] before after value hn hv = absurd hn
core-IsBare (n ∷ ns) before after [] hn hv = absurd hv
core-IsBare (n ∷ ns) before after (v ∷ vs) hn hv = (
  hn.0.0,
  ap (λ c. has_byte c line_blanks)
        (last_byte-append n (ns ++ before) b'=' (after ++ (v ∷ vs))
          ∙ last_byte-append b'=' after v vs)
      ∙ hv.0.1,
)

-- What a line means: a setting is handed to the callbacks, a remark is nothing.
abbrev pub run_line : Env → XdccGetConfig → Line → Run XdccGetConfig
run_line env config (empty lead) = ok config
run_line env config (remark lead text trail) = ok config
run_line env config (setting lead name before after value trail) =
    call_matching (config_line_callbacks env) config name value

abbrev pub run_lines : Env → XdccGetConfig → List Line → Run XdccGetConfig
run_lines env config [] = ok config
run_lines env config (l ∷ ls) = run_line env config l >>= λ config'. run_lines env config' ls

-- One round of the loop in `parse_lines`.
abbrev one_line : Env → XdccGetConfig → Bytes → Run XdccGetConfig
one_line env config line = if ignore_line line then ok config else parse_config_line env config line

word_trim :
    (lib : Sds) (laws : SdsLaws lib) (left word right : Bytes)
    → AllIn blanks left
    → AllIn blanks right
    → IsWord word
    → lib.trim (left ++ (word ++ right)) blanks ≡ word
word_trim lib laws left [] right hl hr hw = absurd hw
word_trim lib laws left (c ∷ s) right hl hr hw =
    laws.trim_core blanks left (c ∷ s) right hl hr (IsBare-blanks (c ∷ s) hw.0)

word_free : (s : Bytes) → IsWord s → has_byte b'=' s ≡ false
word_free [] h = absurd h
word_free (c ∷ s) h = h.1

not_ignored : (name rest : Bytes) → NotRemark name → ignore_line (name ++ rest) ≡ false
unfolding ignore_line
not_ignored [] rest h = absurd h
not_ignored (c ∷ s) rest h = h

assoc_core :
    (name before rest : Bytes)
    → ignore_line ((name ++ before) ++ rest) ≡ ignore_line (name ++ (before ++ rest))
assoc_core name before rest = ap ignore_line (append_assoc name before rest)

module _ (env : Env) (laws : SdsLaws env.sds) where
  split_setting :
      (name before after value : Bytes)
      → AllIn blanks before
      → AllIn blanks after
      → IsWord name
      → IsWord value
      → env.sds.split ((name ++ before) ++ (b'=' ∷ (after ++ value))) b'='
        ≡ (name ++ before) ∷ (after ++ value) ∷ []
  split_setting name before after value hb ha hn hv =
      split-join env.sds laws b'=' ((name ++ before) ∷ (after ++ value) ∷ [])
        (
          has_byte-append b'=' name before
              ∙ ground (arith, word_free name hn, blank_free before hb),
          (
            has_byte-append b'=' after value
                ∙ ground (arith, word_free value hv, blank_free after ha),
            tt,
          ),
        )
        (concat_ne_nil (name ++ before))
    where
      concat_ne_nil : (s : Bytes) → s ++ (b'=' ∷ (after ++ value)) ≢ []
      concat_ne_nil [] e = cc
      concat_ne_nil (c ∷ s) e = cc

  one_line_setting :
      (config : XdccGetConfig) (name before after value : Bytes)
      → AllIn blanks before
      → AllIn blanks after
      → IsWord name
      → NotRemark name
      → IsWord value
      → one_line env config ((name ++ before) ++ (b'=' ∷ (after ++ value)))
        ≡ call_matching (config_line_callbacks env) config name value
  unfolding parse_config_line
  one_line_setting config name before after value hb ha hn nr hv =
      rw
        (
          assoc_core name before (b'=' ∷ (after ++ value)),
          not_ignored name (before ++ (b'=' ∷ (after ++ value))) nr,
          split_setting name before after value hb ha hn hv,
          call_parts,
          word_trim env.sds laws [] name before tt hb hn,
        )
        (ap (call_matching (config_line_callbacks env) config name) trimmed)
    where
      trimmed : env.sds.trim (after ++ value) blanks ≡ value
      trimmed = rw append-nil at (word_trim env.sds laws after value [] ha tt hv)

  -- Trimming a line leaves its core.
  trim_line : (l : Line) → IsLine l → env.sds.trim (render_line l) line_blanks ≡ line_core l
  trim_line (empty lead) (hl, free) =
      ap (λ t. env.sds.trim t line_blanks) (sym (append-nil lead))
      ∙ laws.trim_core line_blanks lead [] [] hl tt tt
  trim_line (remark lead text trail) (hl, ht, bare, free) =
      laws.trim_core line_blanks lead (b'#' ∷ text) trail hl ht bare
  trim_line (setting lead name before after value trail) (hl, ht, hb, ha, hn, nr, hv, free) =
      laws.trim_core line_blanks lead _ trail hl ht (core-IsBare name before after value hn hv)

  one_line-run_line :
      (config : XdccGetConfig) (l : Line)
      → IsLine l
      → one_line env config (line_core l) ≡ run_line env config l
  unfolding ignore_line
  one_line-run_line config (empty lead) h = refl
  one_line-run_line config (remark lead text trail) h = refl
  one_line-run_line config (setting lead name before after value trail)
        (hl, ht, hb, ha, hn, nr, hv, free) =
      one_line_setting config name before after value hb ha hn nr hv

  parse_lines-run_lines :
      (ls : List Line) (config : XdccGetConfig)
      → All IsLine ls
      → parse_lines env config (map render_line ls) ≡ run_lines env config ls
  unfolding parse_lines
  parse_lines-run_lines [] config h = refl
  parse_lines-run_lines (l ∷ ls) config h =
      rw (trim_line l h.0, one_line-run_line config l h.0)
        (bind_ext (run_line env config l) _ _ (λ c. parse_lines-run_lines ls c h.1))

  lines-IsFree : (ls : List Line) → All IsLine ls → IsFree b'\n' (map render_line ls)
  lines-IsFree [] h = tt
  lines-IsFree (empty lead ∷ ls) ((hl, free), h) = (free, lines-IsFree ls h)
  lines-IsFree (remark lead text trail ∷ ls) ((hl, ht, bare, free), h) = (free, lines-IsFree ls h)
  lines-IsFree (setting lead name before after value trail ∷ ls)
        ((hl, ht, hb, ha, hn, nr, hv, free), h) =
      (free, lines-IsFree ls h)

  -- The content that is made of the lines, empty ones, remarks and settings in any order and with
  -- blanks around their parts, does what the lines mean one after the other: a setting hands its type
  -- and its value to the callbacks, the others do nothing, and the first refusal ends the program.
  pub parse_config_string-run_lines :
      (config : XdccGetConfig) (ls : List Line)
      → All IsLine ls
      → join b'\n' (map render_line ls) ≢ []
      → parse_config_string env config (join b'\n' (map render_line ls)) ≡ run_lines env config ls
  unfolding parse_config_string
  parse_config_string-run_lines config ls h some_text =
      rw (split-join env.sds laws b'\n' (map render_line ls) (lines-IsFree ls h) some_text)
        (parse_lines-run_lines ls config h)
