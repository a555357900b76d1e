-- ===== src/Certificate.antt =====
-- helper.c: `openssl_check_certificate_callback`, `ask_for_yes_via_console_input` and
-- `get_ca_cert_of_chain`. OpenSSL is no part of the repository: its certificates are a type, and
-- X509_check_ca is a function on them. What is printed is left out.
pub mod Laws
use xdccget_for_windows.Bytes.{Bytes, codes, str_equals, tolower}
use xdccget_for_windows.Base.{
  none, false, ◌==◌, [], true, Bool, map, take, Option, ℕ, List, ◌∷◌, if◌then◌else◌, some, ◌||◌,
}

-- The X509_V_ERR codes that the callback tells apart.
pub data VerifyError : Type 0 where
  self_signed_cert_in_chain : VerifyError
  depth_zero_self_signed_cert : VerifyError
  other_error : ℕ → VerifyError

unfoldable pub is_self_signed : VerifyError → Bool
is_self_signed self_signed_cert_in_chain = true
is_self_signed depth_zero_self_signed_cert = true
is_self_signed (other_error n) = false

-- strcspn(input, "\n"): the part in front of the first newline.
first_line : Bytes → Bytes
first_line [] = []
first_line (c ∷ s) = let rest = first_line s in if c == b'\n' then [] else c ∷ rest

-- The bytes that fgets gives, at most nine, or `none` at the end of the input.
unfoldable pub ask_for_yes : Option Bytes → Bool
unfolding first_line tolower str_equals
ask_for_yes none = false
ask_for_yes (some input) =
    let answer = map tolower (first_line (take 9 input)) in
    str_equals answer (codes "y") || str_equals answer (codes "yes")

module _ {Cert : Type 0} (check_ca : Cert → Bool) where
  unfoldable pub last_cert : Cert → List Cert → Cert
  last_cert c [] = c
  last_cert c (d ∷ ds) = last_cert d ds

  -- The last certificate of a chain of two or more.
  unfoldable pub get_ca_cert_of_chain : List Cert → Option Cert
  unfolding last_cert
  get_ca_cert_of_chain [] = none
  get_ca_cert_of_chain (c ∷ []) = none
  get_ca_cert_of_chain (c ∷ d ∷ ds) = some (last_cert d ds)

  -- The result, and the certificate that is written to the local folder of trusted ones.
  answered : Bool → Option Cert → ℕ × Option Cert
  answered true added = (1, added)
  answered false added = (0, none)

  other_failure : Cert → Option Cert → Bool → ℕ × Option Cert
  unfolding answered
  other_failure cert none says_yes = answered says_yes none
  other_failure cert (some ca_cert) says_yes =
      if check_ca cert then answered says_yes (some ca_cert) else answered says_yes none

  -- `allow_all` is ALLOW_ALL_CERTS_FLAG; `verify_result` 0 is a failure, which `error` names.
  unfoldable pub openssl_check_certificate_callback :
      Bool → ℕ → Option Cert → List Cert → VerifyError → Option Bytes → ℕ × Option Cert
  unfolding is_self_signed get_ca_cert_of_chain other_failure
  openssl_check_certificate_callback allow_all verify_result none chain error input = (0, none)
  openssl_check_certificate_callback allow_all verify_result (some cert) chain error input =
      if allow_all
      then (1, none)
      else if verify_result == 0
      then (if is_self_signed error
          then answered (ask_for_yes input) (some cert)
          else other_failure cert (get_ca_cert_of_chain chain) (ask_for_yes input))
      else (verify_result, none)
