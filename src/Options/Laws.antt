-- ===== src/Options/Laws.antt =====
-- The two command-line parsers agree, and the positional arguments are taken in order.
use xdccget_for_windows.Bytes.{Bytes, codes, str_equals}
use xdccget_for_windows.Cfg.{ok, exited, Run, cfg_set_bit, XdccGetConfig}
use xdccget_for_windows.Options.{
  quit, option, parsed, parse_opt, Env, Parsed, Key, blanks, argp_key_arg, argp_key_end,
  opt_listen_ip_command, argp_usage, argp_err_unknown, parse_all,
}
use xdccget_for_windows.Options.Windows.{long_options, options, Parse, getopt_case}
use xdccget_for_windows.Base.{
  ℕ, ◌∷◌, if◌then◌else◌, List, true, [], ◌≡◌, suc, arith, Bool, All, refl, length, set, ◌++◌, map,
  zero, some, ap, ◌<◌, Option, ◌+◌, ◌∙◌, append-nil, length-append, append_assoc, ◌≤◌,
}
use xdccget_for_windows.Limit.{set_delay}
use xdccget_for_windows.Limit.Laws.{set_max_transfer_speed_rest}

-- The `val` that getopt returns for a long name.
abbrev pub val_of : Bytes → List (Bytes × ℕ) → ℕ
val_of name [] = 0
val_of name ((n, v) ∷ rest) = if str_equals n name then v else val_of name rest

abbrev as_parsed : Run Parse → Parsed
as_parsed (ok p) = parsed p.cfg
as_parsed (exited n) = quit n

-- The long name of an option has, in the build for Windows, the effect of its key under argp.
abbrev pub SameEffect : Env → Parse → Bytes → Bytes × ℕ → Type 0
SameEffect env p arg entry =
    as_parsed (getopt_case env p (val_of entry.0 long_options) entry.0 arg)
    ≡ parse_opt true env p.cfg (option entry.1 arg)

listen_ip_same :
    (env : Env) (p : Parse) (arg : Bytes)
    → SameEffect env p arg (codes "listen-ip", opt_listen_ip_command)
unfolding getopt_case parse_opt str_equals
listen_ip_same env p arg = ground arith

-- Every option of argp's table, given by its long name to the build for Windows, has the same
-- effect there as in the build with argp, the refusal of a listen address included.
pub getopt_case-parse_opt :
    (env : Env) (p : Parse) (arg : Bytes) → All (SameEffect env p arg) options
unfolding getopt_case parse_opt str_equals
getopt_case-parse_opt env p arg = (
  refl,
  (
    refl,
    (
      refl,
      (
        refl,
        (
          refl,
          (
            refl,
            (
              refl,
              (
                refl,
                (
                  refl,
                  (
                    refl,
                    (
                      refl,
                      (
                        refl,
                        (refl, (refl, (refl, (refl, (listen_ip_same env p arg, (refl, tt)))))),
                      ),
                    ),
                  ),
                ),
              ),
            ),
          ),
        ),
      ),
    ),
  ),
)

-- argp counts the positional arguments: the calls carry 0, 1, 2, … in order, and the last call is
-- the end of the command line, with their number.
abbrev pub Numbered : ℕ → List Key → Type 0
Numbered n [] = ⊥
Numbered n (option key arg ∷ ks) = Numbered n ks
Numbered n (argp_key_arg k arg ∷ ks) = (k ≡ n) × Numbered (suc n) ks
Numbered n (argp_key_end k ∷ ks) = (k ≡ n) × (ks ≡ [])

abbrev pub positional : List Key → List Bytes
positional [] = []
positional (option key arg ∷ ks) = positional ks
positional (argp_key_arg k arg ∷ ks) = arg ∷ positional ks
positional (argp_key_end k ∷ ks) = positional ks

abbrev SameArgs : XdccGetConfig → Parsed → Type 0
SameArgs cfg (parsed cfg') = cfg'.args ≡ cfg.args
SameArgs cfg _ = Unit

-- An option leaves the positional arguments alone.
parse_option-SameArgs :
    (ipv6 : Bool) (env : Env) (cfg : XdccGetConfig) (key : ℕ) (arg : Bytes)
    → SameArgs cfg (parse_opt ipv6 env cfg (option key arg))
unfolding parse_opt cfg_set_bit set_delay
parse_option-SameArgs ipv6 env cfg key arg = ground (
  arith,
  ap (λ (c : XdccGetConfig). c.args) (set_max_transfer_speed_rest cfg (env.sds.trim arg blanks)),
)

map-some-set :
    (taken : List Bytes) (k : ℕ) (r : Option Bytes) (rest : List (Option Bytes)) (arg : Bytes)
    → k ≡ length taken
    → set (map some taken ++ r ∷ rest) k (some arg) ≡ map some (taken ++ arg ∷ []) ++ rest
map-some-set [] zero r rest arg e = refl
map-some-set [] (suc k) r rest arg e = absurd (omega arith)
map-some-set (t ∷ taken) zero r rest arg e = absurd (omega arith)
map-some-set (t ∷ taken) (suc k) r rest arg e =
    ap (◌∷◌ (some t)) (map-some-set taken k r rest arg (omega arith))

parse_all-cons :
    (ipv6 : Bool) (env : Env) (cfg cfg' : XdccGetConfig) (k : Key) (ks : List Key) (first : Parsed)
    → parse_opt ipv6 env cfg k ≡ first
    → parse_all ipv6 env cfg (k ∷ ks) ≡ parsed cfg'
    → (mid : XdccGetConfig) × (first ≡ parsed mid) × (parse_all ipv6 env mid ks ≡ parsed cfg')
unfolding parse_all
parse_all-cons ipv6 env cfg cfg' k ks (parsed mid) e h = (mid, refl, rw (e, parse_all) at h)
parse_all-cons ipv6 env cfg cfg' k ks argp_err_unknown e h = absurd (cc (rw (e, parse_all) at h))
parse_all-cons ipv6 env cfg cfg' k ks argp_usage e h = absurd (cc (rw (e, parse_all) at h))
parse_all-cons ipv6 env cfg cfg' k ks (quit n) e h = absurd (cc (rw (e, parse_all) at h))

key_arg_room :
    (ipv6 : Bool) (env : Env) (cfg mid : XdccGetConfig) (k : ℕ) (arg : Bytes)
    → parse_opt ipv6 env cfg (argp_key_arg k arg) ≡ parsed mid
    → (k < 3) × (mid.args ≡ set cfg.args k (some arg))
unfolding parse_opt
key_arg_room ipv6 env cfg mid k arg h = ground arith

key_end_three :
    (ipv6 : Bool) (env : Env) (cfg cfg' : XdccGetConfig) (k : ℕ)
    → parse_all ipv6 env cfg (argp_key_end k ∷ []) ≡ parsed cfg'
    → (3 ≤ k) × (cfg'.args ≡ cfg.args)
unfolding parse_all
key_end_three ipv6 env cfg cfg' k h = ground arith

module _ (ipv6 : Bool) (env : Env) where
  parse_all-args_from :
      (ks : List Key) (taken : List Bytes) (rest : List (Option Bytes)) (cfg cfg' : XdccGetConfig)
      → cfg.args ≡ map some taken ++ rest
      → length taken + length rest ≡ 3
      → Numbered (length taken) ks
      → parse_all ipv6 env cfg ks ≡ parsed cfg'
      → (cfg'.args ≡ map some (taken ++ positional ks)) × (length (taken ++ positional ks) ≡ 3)
  parse_all-args_from [] taken rest cfg cfg' a l n h = absurd n
  parse_all-args_from (option key arg ∷ ks) taken rest cfg cfg' a l n h =
      let (mid, e, later) = parse_all-cons ipv6 env cfg cfg' (option key arg) ks _ refl h in
      let same : SameArgs cfg (parsed mid) = rw e at (parse_option-SameArgs ipv6 env cfg key arg) in
      parse_all-args_from ks taken rest mid cfg' (same ∙ a) l n later
  parse_all-args_from (argp_key_arg k arg ∷ ks) taken [] cfg cfg' a l (e, n) h =
      let (mid, e', later) = parse_all-cons ipv6 env cfg cfg' (argp_key_arg k arg) ks _ refl h in
      absurd (omega (arith, key_arg_room ipv6 env cfg mid k arg e'))
  parse_all-args_from (argp_key_arg k arg ∷ ks) taken (r ∷ rest) cfg cfg' a l (e, n) h =
      let (mid, e', later) = parse_all-cons ipv6 env cfg cfg' (argp_key_arg k arg) ks _ refl h in
      let room = key_arg_room ipv6 env cfg mid k arg e' in
      let one_more : length (taken ++ arg ∷ []) ≡ suc (length taken) =
        omega (arith, length-append taken (arg ∷ [])) in
      let done =
        parse_all-args_from ks (taken ++ arg ∷ []) rest mid cfg'
          (room.1 ∙ ap (λ l. set l k (some arg)) a ∙ map-some-set taken k r rest arg e)
          (omega arith) (rw one_more n) later in
      rw append_assoc at done
  parse_all-args_from (argp_key_end k ∷ []) taken [] cfg cfg' a l (e, n) h =
      let last = key_end_three ipv6 env cfg cfg' k h in
      (last.1 ∙ a ∙ simp append-nil, omega (arith, length-append taken []))
  parse_all-args_from (argp_key_end k ∷ []) taken (r ∷ rest) cfg cfg' a l (e, n) h =
      absurd (omega (arith, key_end_three ipv6 env cfg cfg' k h))
  parse_all-args_from (argp_key_end k ∷ (x ∷ ks)) taken rest cfg cfg' a l (e, n) h = absurd (cc n)

-- A command line that is accepted has exactly three positional arguments, and they are stored in
-- order, wherever the options stand among them.
pub parse_all-args :
    (ipv6 : Bool) (env : Env) (ks : List Key) (cfg cfg' : XdccGetConfig)
    → length cfg.args ≡ 3
    → Numbered 0 ks
    → parse_all ipv6 env cfg ks ≡ parsed cfg'
    → (cfg'.args ≡ map some (positional ks)) × (length (positional ks) ≡ 3)
parse_all-args ipv6 env ks cfg cfg' l n h =
    parse_all-args_from ipv6 env ks [] cfg.args cfg cfg' refl (omega arith) n h
