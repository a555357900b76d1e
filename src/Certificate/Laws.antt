-- ===== src/Certificate/Laws.antt =====
-- When a server's certificate is accepted, and which certificate is kept.
use mathlib.Core.Option.{some-injective}
use xdccget_for_windows.Bytes.{Bytes}
use xdccget_for_windows.Certificate.{
  ask_for_yes, openssl_check_certificate_callback, VerifyError, get_ca_cert_of_chain, last_cert,
  is_self_signed,
}
use xdccget_for_windows.Base.{
  List, ◌≡◌, false, ◌⊎◌, true, Bool, some, Option, ◌≢◌, ℕ, ◌↔◌, arith, [], ◌∷◌, ◌++◌, ap, refl, ◌∙◌,
  inl, inr,
}

module _ {Cert : Type 0} (check_ca : Cert → Bool) where
  -- A certificate is accepted exactly when all are allowed, or it was verified, or the user
  -- answered yes.
  pub openssl_check_certificate_callback_accepts :
      (allow_all : Bool) (verify_result : ℕ) (cert : Cert) (chain : List Cert) (error : VerifyError)
      (input : Option Bytes)
      → ((openssl_check_certificate_callback check_ca allow_all verify_result
            (some cert)
            chain
            error
            input).0
          ≢ 0)
        ↔ (((allow_all ≡ true) ⊎ (verify_result ≢ 0)) ⊎ (ask_for_yes input ≡ true))
  unfolding openssl_check_certificate_callback
  openssl_check_certificate_callback_accepts allow_all verify_result cert chain error input =
      (λ ne. ground arith, λ allowed zero'. ground arith)

  last_cert_at :
      (c added : Cert) (cs : List Cert) → last_cert check_ca c (cs ++ (added ∷ [])) ≡ added
  unfolding last_cert
  last_cert_at c added [] = refl
  last_cert_at c added (d ∷ cs) = last_cert_at d added cs

  split_last :
      (c : Cert) (cs : List Cert)
      → (front : List Cert) × (c ∷ cs ≡ front ++ (last_cert check_ca c cs ∷ []))
  unfolding last_cert
  split_last c [] = ([], refl)
  split_last c (d ∷ cs) = let (front, e) = split_last d cs in (c ∷ front, ap (λ r. c ∷ r) e)

  -- The chain has two certificates or more, and this is the last one.
  abbrev pub EndsIn : List Cert → Cert → Type 0
  EndsIn chain added = (c : Cert) × (cs : List Cert) × (chain ≡ c ∷ (cs ++ (added ∷ [])))

  ca_cert_at :
      (c added : Cert) (cs : List Cert)
      → get_ca_cert_of_chain check_ca (c ∷ (cs ++ (added ∷ []))) ≡ some added
  unfolding get_ca_cert_of_chain last_cert
  ca_cert_at c added [] = refl
  ca_cert_at c added (d ∷ cs) = ap some (last_cert_at d added cs)

  ends_in :
      (l : List Cert) (added : Cert) → get_ca_cert_of_chain check_ca l ≡ some added → EndsIn l added
  unfolding get_ca_cert_of_chain
  ends_in [] added h = absurd (ground (arith, h))
  ends_in (c ∷ []) added h = absurd (ground (arith, h))
  ends_in (c ∷ d ∷ ds) added h =
      let (front, e) = split_last d ds in
      (c, front, ap (λ r. c ∷ r) (e ∙ ap (λ x. front ++ (x ∷ [])) (some-injective _ _ h)))

  get_ca_cert_of_chain-EndsIn :
      (chain : List Cert) (added : Cert)
      → (get_ca_cert_of_chain check_ca chain ≡ some added) ↔ EndsIn chain added
  get_ca_cert_of_chain-EndsIn chain added = (
    ends_in chain added,
    λ (c, cs, e). ap (get_ca_cert_of_chain check_ca) e ∙ ca_cert_at c added cs,
  )

  adds :
      (allow_all : Bool) (verify_result : ℕ) (cert added : Cert) (chain : List Cert)
      (error : VerifyError) (input : Option Bytes)
      → (openssl_check_certificate_callback check_ca allow_all verify_result
          (some cert)
          chain
          error
          input).1
        ≡ some added
      → ((allow_all ≡ false)
          × (verify_result ≡ 0)
          × (ask_for_yes input ≡ true)
          × (((is_self_signed error ≡ true) × (added ≡ cert))
              ⊎ ((is_self_signed error ≡ false)
                  × (check_ca cert ≡ true)
                  × (get_ca_cert_of_chain check_ca chain ≡ some added))))
  unfolding openssl_check_certificate_callback
  adds allow_all verify_result cert added chain error input h = ground arith

  is_added :
      (allow_all : Bool) (verify_result : ℕ) (cert added : Cert) (chain : List Cert)
      (error : VerifyError) (input : Option Bytes)
      → (allow_all ≡ false)
      → (verify_result ≡ 0)
      → (ask_for_yes input ≡ true)
      → (((is_self_signed error ≡ true) × (added ≡ cert))
          ⊎ ((is_self_signed error ≡ false)
              × (check_ca cert ≡ true)
              × (get_ca_cert_of_chain check_ca chain ≡ some added)))
      → (openssl_check_certificate_callback check_ca allow_all verify_result
          (some cert)
          chain
          error
          input).1
        ≡ some added
  unfolding openssl_check_certificate_callback
  is_added allow_all verify_result cert added chain error input h k y (inl (e, same)) =
      rw (h, k, y, e, same) refl
  is_added allow_all verify_result cert added chain error input h k y (inr (e, signs, last)) =
      rw (h, k, y, e, last, signs) refl

  -- A certificate is added to the trusted ones exactly if not all are allowed, verification failed
  -- and the user answered yes, and it is the certificate that OpenSSL is looking at, for the two
  -- errors of self-signed ones, or else the last one of a chain of two or more, where the certificate
  -- that OpenSSL is looking at may sign others.
  pub openssl_check_certificate_callback_adds :
      (allow_all : Bool) (verify_result : ℕ) (cert added : Cert) (chain : List Cert)
      (error : VerifyError) (input : Option Bytes)
      → ((openssl_check_certificate_callback check_ca allow_all verify_result
            (some cert)
            chain
            error
            input).1
          ≡ some added)
        ↔ ((allow_all ≡ false)
            × (verify_result ≡ 0)
            × (ask_for_yes input ≡ true)
            × (((is_self_signed error ≡ true) × (added ≡ cert))
                ⊎ ((is_self_signed error ≡ false) × (check_ca cert ≡ true) × EndsIn chain added)))
  unfolding openssl_check_certificate_callback
  openssl_check_certificate_callback_adds allow_all verify_result cert added chain error input = (
    λ h.
        let (not_all, fails, says_yes, kind) =
          adds allow_all verify_result cert added chain error input h in
        (
          not_all,
          fails,
          says_yes,
          elim kind [
            | inl same ↦ inl same
            | inr (e, signs, last) ↦
                inr (e, signs, (get_ca_cert_of_chain-EndsIn chain added).0 last)
          ],
        ),
    λ (not_all, fails, says_yes, kind).
        is_added allow_all verify_result cert added chain error input not_all fails says_yes
          (elim kind [
            | inl same ↦ inl same
            | inr (e, signs, last) ↦
                inr (e, signs, (get_ca_cert_of_chain-EndsIn chain added).1 last)
          ]),
  )
