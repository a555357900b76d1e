-- ===== src/Checksum/FileHash/Laws.antt =====
-- The hash of a file does not depend on the size of the buffer, and the thread's answer is whether the
-- hash is the one of the notice.
use xdccget_for_windows.Checksum.FileHash.{
  HashAlgorithm, read_chunks, read_bytes, get_hash_from_file, checksum_verification_thread,
  Verification, succeeded, read_file, differs,
}
use xdccget_for_windows.Base.{
  ◌<◌, true, some, ◌↔◌, ◌≡◌, ℕ, refl, ap, length, zero, take, drop, suc, arith, [], ◌∷◌, ◌++◌,
  false, if◌then◌else◌, ◌∙◌, length-drop, length-take, Option, inl, ◌≤◌, ◌⊎◌, ◌==◌, inr, Bool-cases,
  ◌+◌, Bool, sym,
}
use xdccget_for_windows.Bytes.{Bytes, codes, strstr}
use xdccget_for_windows.Checksum.{extract_md5, hash_text}
use xdccget_for_windows.Cfg.{ok}
use xdccget_for_windows.Session.Laws.{take-all}
use xdccget_for_windows.Checksum.Laws.{IsBytes, extract_md5-to_hex, to_hex}

-- Updating piece by piece is updating with the whole, and hashes are equal only to themselves.
pub record HashLaws (algo : HashAlgorithm) : Type 0 where
  pub update_append :
      (ctx : algo.Context) (a b : Bytes)
      → algo.update (algo.update ctx a) b ≡ algo.update ctx (a ++ b)
  pub equals_iff : (a b : Bytes) → (algo.equals a b ≡ true) ↔ (a ≡ b)

abbrev answer : Bool → Verification
answer b = if b then succeeded else differs

answer_iff :
    (b : Bool)
    → ((answer b ≡ succeeded) ↔ (b ≡ true)) × ((answer b ≡ succeeded) ⊎ (answer b ≡ differs))
answer_iff true = ((λ _. refl, λ _. refl), inl refl)
answer_iff false = ((λ e. absurd (ground (arith, e)), λ e. absurd (ground (arith, e))), inr refl)

module _ (algo : HashAlgorithm) (laws : HashLaws algo) (buffer_size : ℕ)
    (big : 0 < buffer_size) where
  take-drop : (n : ℕ) (s : Bytes) → take n s ++ drop n s ≡ s
  take-drop zero s = refl
  take-drop (suc n) [] = refl
  take-drop (suc n) (c ∷ s) = ap (λ (r : Bytes). c ∷ r) (take-drop n s)

  read_chunks-update :
      (fuel : ℕ) (content : Bytes) (ctx : algo.Context)
      → length content < fuel
      → read_chunks algo.update buffer_size fuel content ctx ≡ some (algo.update ctx content)
  unfolding read_chunks read_bytes
  read_chunks-update zero content ctx h = absurd (omega arith)
  read_chunks-update (suc fuel) content ctx h =
      elim (Bool-cases (length (take buffer_size content) == buffer_size)) [
        | inl full ↦ rw full (
            read_chunks-update fuel (drop buffer_size content)
              (algo.update ctx (take buffer_size content)) (shorter full)
            ∙ ap some (
                laws.update_append ctx (take buffer_size content) (drop buffer_size content)
                ∙ ap (algo.update ctx) (take-drop buffer_size content)))
        | inr short ↦ rw short (
            ap (λ (t : Bytes). some (algo.update ctx t))
              (take-all buffer_size content (fits short)))
      ]
    where
      shorter :
          (length (take buffer_size content) == buffer_size) ≡ true
          → length (drop buffer_size content) < fuel
      shorter full =
          ground (arith, length-take buffer_size content, length-drop buffer_size content, h, big)

      fits :
          (length (take buffer_size content) == buffer_size) ≡ false → length content ≤ buffer_size
      fits short = ground (arith, length-take buffer_size content)

  -- The hash of a file is the hash of its content as a whole, whatever the size of the buffer.
  get_hash_from_file-update :
      (files : Bytes → Option Bytes) (filename content : Bytes)
      → files filename ≡ some content
      → get_hash_from_file algo buffer_size files filename
        ≡ some (ok (algo.final (algo.update algo.init content)))
  unfolding get_hash_from_file read_file
  get_hash_from_file-update files filename content e =
      rw
        (
          get_hash_from_file,
          read_file,
          e,
          read_chunks-update (length content + 1) content algo.init (omega arith),
        )
        refl

  -- The hash that is read in a text whose first "md5sum" is followed by two bytes and 32 lower-case
  -- hexadecimal digits, and what a check of a file against it finds out.
  pub checksum_verification_thread-extract_md5 :
      (files : Bytes → Option Bytes) (path content message rest hash : Bytes) (c d : ℕ)
      → files path ≡ some content
      → algo.hash_size ≡ 16
      → strstr message (codes "md5sum") ≡ some (codes "md5sum" ++ (c ∷ d ∷ (to_hex hash ++ rest)))
      → length hash ≡ 16
      → IsBytes hash
      → (text : Bytes) × (v : Verification) × (extract_md5 message ≡ hash_text text)
        × (checksum_verification_thread algo buffer_size files text path ≡ some v)
        × ((v ≡ succeeded) ↔ (algo.final (algo.update algo.init content) ≡ hash))
        × ((v ≡ succeeded) ⊎ (v ≡ differs))
  unfolding checksum_verification_thread
  checksum_verification_thread-extract_md5 files path content message rest hash c d e size found l
        h =
      let (extracted, read_back) = extract_md5-to_hex message rest hash c d found l h in
      let result = algo.final (algo.update algo.init content) in
      (
        to_hex hash,
        (if algo.equals hash result then succeeded else differs),
        extracted,
        rw
            (
              checksum_verification_thread,
              get_hash_from_file-update files path content e,
              size,
              read_back,
            )
            refl,
        (
          λ good.
              sym
                ((laws.equals_iff hash result).0 ((answer_iff (algo.equals hash result)).0.0 good)),
          λ same.
              (answer_iff (algo.equals hash result)).0.1
                ((laws.equals_iff hash result).1 (sym same)),
        ),
        (answer_iff (algo.equals hash result)).1,
      )
