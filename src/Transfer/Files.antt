-- ===== src/Transfer/Files.antt =====
-- Which files a request for a transfer touches.
use xdccget_for_windows.World.{
  World, done, exit_pgm, fault, ◌>>=◌, Outcome, find_session, IrcDccSession, is_init, Callback, Net,
  recv_file, resume_file,
}
use xdccget_for_windows.Bytes.{Bytes, str_equals}
use xdccget_for_windows.Dcc.{when_init, irc_dcc_accept, libirc_dcc_destroy_nolock, irc_dcc_resume}
use xdccget_for_windows.Base.{
  false, ℕ, ◌≡◌, inr, ◌==◌, Bool-cases, Option-cases, inl, Option, get_elem?, length, refl, ltb, ap,
  sym, if◌then◌else◌, subst, some, [],
}
use xdccget_for_windows.Transfer.{
  check_ret, open_file, get_absolute_path, prepare_recv_file_request, contains_illegal_chars,
  get_complete_path, recv_file_request,
}
use xdccget_for_windows.Cfg.{XdccGetConfig}

-- If the operation returns, every other file and the configuration are as they were.
unfoldable Spares : Bytes → World → {A : Type 0} → Outcome A → Type 0
Spares path w (done a w₁) =
    (w₁.cfg ≡ w.cfg) × ((p : Bytes) → str_equals p path ≡ false → w₁.files p ≡ w.files p)
Spares path w (exit_pgm w₁) = Unit
Spares path w fault = Unit

SparesWorld : Bytes → World → World → Type 0
SparesWorld path w w₁ =
    (w₁.cfg ≡ w.cfg) × ((p : Bytes) → str_equals p path ≡ false → w₁.files p ≡ w.files p)

Spares-bind :
    {A B : Type 0} (path : Bytes) (w : World) (m : Outcome A) (f : A → World → Outcome B)
    → Spares path w m
    → ((a : A) (w₁ : World) → SparesWorld path w w₁ → Spares path w (f a w₁))
    → Spares path w (m >>= f)
unfolding Spares SparesWorld
Spares-bind path w (done a w₁) f h k = k a w₁ h
Spares-bind path w (exit_pgm w₁) f h k = tt
Spares-bind path w fault f h k = tt

when_init-Spares :
    (path : Bytes) (w w₁ : World) (i : ℕ) (body : IrcDccSession → Outcome ℕ)
    → SparesWorld path w w₁
    → ((s : IrcDccSession) → Spares path w (body s))
    → Spares path w (when_init w₁ i body)
unfolding Spares SparesWorld
when_init-Spares path w w₁ i body h k =
    elim (Option-cases (find_session (λ s. s.id == i) w₁.dcc_sessions)) [
      | inl e ↦ rw (Spares, e) h
      | inr (s, e) ↦ elim (Bool-cases (is_init s.state)) [
        | inl t ↦ rw (Spares, e, t) (k s)
        | inr f ↦ rw (Spares, e, f) h
      ]
    ]

irc_dcc_accept-Spares :
    (path : Bytes) (net : Net) (w w₁ : World) (i : ℕ) (ctx : Option ℕ) (cb : Callback)
    → SparesWorld path w w₁
    → Spares path w (irc_dcc_accept net w₁ i ctx cb)
unfolding Spares SparesWorld irc_dcc_accept libirc_dcc_destroy_nolock
irc_dcc_accept-Spares path net w w₁ i ctx cb h = when_init-Spares path w w₁ i _ h (λ s.
    elim (Bool-cases (net.connects i)) [
      | inl c ↦ elim (Bool-cases s.ssl) [
        | inl t ↦ elim (Bool-cases (net.ssl_connects i)) [
          | inl o ↦ rw (c, t, o) h
          | inr x ↦ rw (c, t, x) h
        ]
        | inr f ↦ rw (c, f) h
      ]
      | inr n ↦ rw (n) h
    ])

irc_dcc_resume-Spares :
    (path : Bytes) (net : Net) (w w₁ : World) (i : ℕ) (ctx : Option ℕ) (cb : Callback)
    (nick : Bytes) (position : ℕ)
    → SparesWorld path w w₁
    → Spares path w (irc_dcc_resume net w₁ i ctx cb nick position)
unfolding Spares SparesWorld irc_dcc_resume
irc_dcc_resume-Spares path net w w₁ i ctx cb nick position h =
    when_init-Spares path w w₁ i _ h (λ s. h)

check_ret-Spares :
    (path : Bytes) (w : World) (m : Outcome ℕ) → Spares path w m → Spares path w (check_ret m)
unfolding Spares
check_ret-Spares path w (done n w₁) h = elim (Bool-cases (n == 0)) [
  | inl z ↦ rw (Spares, z) h
  | inr s ↦ rw (Spares, s) tt
]
check_ret-Spares path w (exit_pgm w₁) h = tt
check_ret-Spares path w fault h = tt

open_file-Spares :
    (net : Net) (w w₁ : World) (k : ℕ) (path content : Bytes)
    → SparesWorld path w w₁
    → Spares path w (open_file net w₁ k path content)
unfolding Spares SparesWorld
open_file-Spares net w w₁ k path content h = elim (Bool-cases (net.opens path)) [
  | inl o ↦ elim (Option-cases (get_elem? w₁.contexts k)) [
    | inl n ↦ rw (o, n) tt
    | inr (c, e) ↦ rw (o, e) (h.0, λ p other. rw (other) (h.1 p other))
  ]
  | inr n ↦ rw (n) tt
]

prepare-Spares :
    (net : Net) (w : World) (path filename : Bytes) (size : ℕ)
    → Spares path w (prepare_recv_file_request net w filename size)
unfolding Spares prepare_recv_file_request
prepare-Spares net w path filename size = elim (Bool-cases (contains_illegal_chars filename)) [
  | inl b ↦ rw (Spares, b) tt
  | inr g ↦ elim (Bool-cases (net.dir_exists (get_absolute_path net w))) [
    | inl d ↦ elim (Bool-cases (ltb (length w.contexts) w.cfg.num_downloads)) [
      | inl l ↦ rw (Spares, g, d, l) (refl, λ p other. refl)
      | inr m ↦ rw (Spares, g, d, m) tt
    ]
    | inr d ↦ elim (Bool-cases (ltb (length w.contexts) w.cfg.num_downloads)) [
      | inl l ↦ rw (Spares, g, d, l) (refl, λ p other. refl)
      | inr m ↦ rw (Spares, g, d, m) tt
    ]
  ]
]

same_path :
    (net : Net) (w w₁ : World) (filename : Bytes)
    → w₁.cfg ≡ w.cfg
    → get_complete_path net w₁ filename ≡ get_complete_path net w filename
unfolding get_complete_path
same_path net w w₁ filename same =
    ap (λ (cfg : XdccGetConfig). get_complete_path net (record w { cfg = cfg }) filename) same

existing_Spares :
    (net : Net) (w w₂ : World) (nick : Bytes) (size dccid k n : ℕ) (path : Bytes)
    → SparesWorld path w w₂
    → Spares path w (
        if size == n
        then exit_pgm w₂
        else if n == 0
        then check_ret (irc_dcc_accept net w₂ dccid (some k) recv_file)
        else check_ret (irc_dcc_resume net w₂ dccid (some k) resume_file nick n))
unfolding Spares
existing_Spares net w w₂ nick size dccid k n path h = elim (Bool-cases (size == n)) [
  | inl e ↦ rw (Spares, e) tt
  | inr f ↦ elim (Bool-cases (n == 0)) [
    | inl e ↦
        subst
          (λ b. Spares path w (
            if b
            then exit_pgm w₂
            else if n == 0
            then check_ret (irc_dcc_accept net w₂ dccid (some k) recv_file)
            else check_ret (irc_dcc_resume net w₂ dccid (some k) resume_file nick n)))
          (sym f)
          (subst
            (λ b. Spares path w (
              if b
              then check_ret (irc_dcc_accept net w₂ dccid (some k) recv_file)
              else check_ret (irc_dcc_resume net w₂ dccid (some k) resume_file nick n)))
            (sym e)
            (check_ret-Spares path w _
              (irc_dcc_accept-Spares path net w w₂ dccid (some k) recv_file h)))
    | inr g ↦
        subst
          (λ b. Spares path w (
            if b
            then exit_pgm w₂
            else if n == 0
            then check_ret (irc_dcc_accept net w₂ dccid (some k) recv_file)
            else check_ret (irc_dcc_resume net w₂ dccid (some k) resume_file nick n)))
          (sym f)
          (subst
            (λ b. Spares path w (
              if b
              then check_ret (irc_dcc_accept net w₂ dccid (some k) recv_file)
              else check_ret (irc_dcc_resume net w₂ dccid (some k) resume_file nick n)))
            (sym g)
            (check_ret-Spares path w _
              (irc_dcc_resume-Spares path net w w₂ dccid (some k) resume_file nick n h)))
  ]
]

Spares-path :
    {A : Type 0} (p q : Bytes) (w : World) (o : Outcome A) → p ≡ q → Spares p w o → Spares q w o
Spares-path p q w o same h = subst (λ path. Spares path w o) same h

recv_file_request-Spares :
    (net : Net) (w : World) (nick filename : Bytes) (size dccid : ℕ)
    → Spares (get_complete_path net w filename) w (recv_file_request net w nick filename size dccid)
unfolding recv_file_request Spares SparesWorld
recv_file_request-Spares net w nick filename size dccid =
    Spares-bind (get_complete_path net w filename) w (prepare_recv_file_request net w filename size)
      _ (prepare-Spares net w (get_complete_path net w filename) filename size)
      (λ k w₁ h.
        Spares-path (get_complete_path net w₁ filename) (get_complete_path net w filename) w _
          (same_path net w w₁ filename h.0)
          (let h₁ =
              subst (λ path. SparesWorld path w w₁) (sym (same_path net w w₁ filename h.0)) h in
            elim (Option-cases (w₁.files (get_complete_path net w₁ filename))) [
              | inl e ↦
                  rw (Spares, e)
                    (Spares-bind (get_complete_path net w₁ filename) w
                      (open_file net w₁ k (get_complete_path net w₁ filename) []) _
                      (open_file-Spares net w w₁ k (get_complete_path net w₁ filename) [] h₁)
                      (λ a w₂ h₂.
                        check_ret-Spares _ w _
                          (irc_dcc_accept-Spares _ net w w₂ dccid (some k) recv_file h₂)))
              | inr (content, e) ↦
                  rw (Spares, e)
                    (Spares-bind (get_complete_path net w₁ filename) w
                      (open_file net w₁ k (get_complete_path net w₁ filename) content) _
                      (open_file-Spares net w w₁ k (get_complete_path net w₁ filename) content h₁)
                      (λ a w₂ h₂.
                        existing_Spares net w w₂ nick size dccid k (length content)
                          (get_complete_path net w₁ filename) h₂))
            ]))

-- A request for a transfer that returns leaves the configuration and every file alone, but the file
-- with its name in the target directory.
pub recv_file_request_other_files :
    (net : Net) (w w₁ : World) (nick filename : Bytes) (size dccid : ℕ) (p : Bytes)
    → recv_file_request net w nick filename size dccid ≡ done tt w₁
    → str_equals p (get_complete_path net w filename) ≡ false
    → (w₁.cfg ≡ w.cfg) × (w₁.files p ≡ w.files p)
unfolding Spares
recv_file_request_other_files net w w₁ nick filename size dccid p returns other =
    let spared =
      subst (λ o. Spares (get_complete_path net w filename) w o) returns
        (recv_file_request-Spares net w nick filename size dccid) in
    (spared.0, spared.1 p other)
