-- ===== src/Algo/Transparent.antt =====
-- algo/abe-support.cpp: `decrypt` beside a decryption that keeps nothing.
use mathlib.Core.Path.{subst}
use nac_abe.Common.{
  Bytes, text, ◌≢◌, ◌≡◌, refl, sym, ap, ◌∙◌, none, some, List, [], ◌∷◌, map, arith, Option-cases,
  Bool-cases, inl, inr, Option,
}
use nac_abe.Common.Text.{c_string, bytes_eq, bytes_beq, bytes_beq_iff}
use nac_abe.Common.Map.{find, put, find-put}
use nac_abe.Common.Result.{Result, ok, err, Exception}
use nac_abe.OpenAbe.{OpenAbe, unseal}
use nac_abe.Algo.Keys.{PublicParams, PrivateKey}
use nac_abe.Algo.Content.{CipherText}
use nac_abe.Algo.Decrypt.{
  AbeSupport, fresh_support, recover_key, content_key_of, decrypt, decrypt_error, decryption_error,
}
use nac_abe.Algo.Cache.{cached, recover_key_lem, content_key_of-cached, content_key_of-new}

module _ ⦃abe : OpenAbe⦄ (scheme : Bytes) (params : PublicParams) (prv : PrivateKey) where
  abbrev opened : Bytes → Option (Option Bytes)
  opened sealed = unseal scheme params.m_pub (text "user1") (text "key1") prv.m_prv sealed

  -- Every entry of the cache is what the private key opens.
  abbrev pub IsOwn : AbeSupport → Type 0
  IsOwn s = (sealed key : Bytes) → cached s sealed ≡ some key → opened sealed ≡ some (some key)

  -- The objects are decrypted one after the other, with the singleton.
  pub decrypt_all : List CipherText → AbeSupport → List (Result Bytes)
  decrypt_all [] s = []
  decrypt_all (c ∷ cs) s = let (r, s') = decrypt scheme params prv c s in r ∷ decrypt_all cs s'

  -- What a decryption gives that finds nothing in the cache.
  abbrev pub decrypt_once : CipherText → Result Bytes
  decrypt_once c = (decrypt scheme params prv c fresh_support).0

  -- The content key comes from the cache, or is recovered and kept, or is refused.
  data Fetched (sealed : Bytes) (s : AbeSupport) : Result Bytes × AbeSupport → Type 0 where
    known :
        (key : Bytes)
        → (content_key_of scheme params prv sealed fresh_support).0 ≡ ok key
        → Fetched sealed s (ok key, s)
    recovered :
        (key : Bytes)
        → opened sealed ≡ some (some key)
        → (content_key_of scheme params prv sealed fresh_support).0 ≡ ok key
        → Fetched sealed s (
          ok key,
          record s { m_decrypted_content_keys = put sealed key s.m_decrypted_content_keys },
        )
    refused :
        (x : Exception)
        → (content_key_of scheme params prv sealed fresh_support).0 ≡ err x
        → Fetched sealed s (err x, s)

  recovers :
      (sealed key : Bytes)
      → opened sealed ≡ some (some key)
      → (content_key_of scheme params prv sealed fresh_support).0 ≡ ok key
  unfolding content_key_of find
  recovers sealed key e =
      ap (λ (p : Result Bytes × AbeSupport). p.0)
        (recover_key_lem scheme params prv sealed key fresh_support e)

  refuses :
      (sealed : Bytes) (s : AbeSupport)
      → ((key : Bytes) → opened sealed ≢ some (some key))
      → (x : Exception) × (recover_key scheme params prv sealed s ≡ (err x, s))
        × ((content_key_of scheme params prv sealed fresh_support).0 ≡ err x)
  unfolding content_key_of find
  refuses sealed s h = elim (Option-cases (opened sealed)) [
    | inl e ↦ (
      decrypt_error,
      unfold recover_key unseal in ground arith,
      unfold recover_key unseal in ground arith,
    )
    | inr (none, e) ↦ (
      decryption_error,
      unfold recover_key unseal in ground arith,
      unfold recover_key unseal in ground arith,
    )
    | inr (some key, e) ↦ absurd (h key e)
  ]

  Fetched_lem :
      (sealed : Bytes) (s : AbeSupport)
      → IsOwn s
      → Fetched sealed s (content_key_of scheme params prv sealed s)
  Fetched_lem sealed s own = elim (Option-cases (cached s sealed)) [
    | inr (key, e) ↦
        rw (content_key_of-cached scheme params prv sealed key s e)
          (known key (recovers sealed key (own sealed key e)))
    | inl e ↦
        rw (content_key_of-new scheme params prv sealed s e) (elim (Option-cases (opened sealed)) [
          | inl f ↦ refusal (λ key g. cc)
          | inr (none, f) ↦ refusal (λ key g. cc)
          | inr (some key, f) ↦
              rw (recover_key_lem scheme params prv sealed key s f)
                (recovered key f (recovers sealed key f))
        ])
  ]
    where
      refusal :
          ((key : Bytes) → opened sealed ≢ some (some key))
          → Fetched sealed s (recover_key scheme params prv sealed s)
      refusal h = let (x, e, f) = refuses sealed s h in rw e (refused x f)

  kept-IsOwn :
      (sealed key : Bytes) (s : AbeSupport)
      → IsOwn s
      → opened sealed ≡ some (some key)
      → IsOwn (record s { m_decrypted_content_keys = put sealed key s.m_decrypted_content_keys })
  kept-IsOwn sealed key s own e sealed' key' f = elim (Bool-cases (bytes_beq sealed sealed')) [
    | inr other ↦
        own sealed' key' (ground (arith, find-put sealed sealed' key s.m_decrypted_content_keys))
    | inl same ↦
        let k : key ≡ key' =
          ground (arith, find-put sealed sealed' key s.m_decrypted_content_keys) in
        rw (← (bytes_beq_iff sealed sealed').0 same, ← k) e
  ]

  Fetched-IsOwn :
      (sealed : Bytes) (s : AbeSupport) {p : Result Bytes × AbeSupport}
      → Fetched sealed s p
      → IsOwn s
      → IsOwn p.1
  Fetched-IsOwn sealed s (known key e) own = own
  Fetched-IsOwn sealed s (recovered key e f) own = kept-IsOwn sealed key s own e
  Fetched-IsOwn sealed s (refused x e) own = own

  Fetched-same :
      (sealed : Bytes) (s : AbeSupport) {p : Result Bytes × AbeSupport}
      → Fetched sealed s p
      → p.0 ≡ (content_key_of scheme params prv sealed fresh_support).0
  Fetched-same sealed s (known key e) = sym e
  Fetched-same sealed s (recovered key e f) = sym f
  Fetched-same sealed s (refused x e) = sym e

  -- Only the result of the search for the content key, and its cache, go on.
  decrypt_parts :
      (c : CipherText) (sealed : Bytes) (s : AbeSupport)
      → c_string c.m_content_key.m_enc_aes_key ≡ some sealed
      → ((decrypt scheme params prv c s).1 ≡ (content_key_of scheme params prv sealed s).1)
        × (((content_key_of scheme params prv sealed s).0
              ≡ (content_key_of scheme params prv sealed fresh_support).0)
            → (decrypt scheme params prv c s).0 ≡ decrypt_once c)
  unfolding decrypt
  decrypt_parts c sealed s e = (ground arith, λ h. ground arith)

  decrypt_lem :
      (c : CipherText) (s : AbeSupport)
      → IsOwn s
      → ((decrypt scheme params prv c s).0 ≡ decrypt_once c)
        × IsOwn (decrypt scheme params prv c s).1
  decrypt_lem c s own = elim (Option-cases (c_string c.m_content_key.m_enc_aes_key)) [
    | inl e ↦ unfold decrypt in (ground arith, rw e own)
    | inr (sealed, e) ↦
        let (state, same) = decrypt_parts c sealed s e in
        let f = Fetched_lem sealed s own in
        (same (Fetched-same sealed s f), subst IsOwn (sym state) (Fetched-IsOwn sealed s f own))
  ]

  -- As long as a process uses one private key, it does not see the cache: whatever objects are
  -- decrypted one after the other, from a cache of what the key opens, each call gives, also where it
  -- throws, what it gives with an empty cache.
  pub decrypt_all_transparent :
      (cs : List CipherText) (s : AbeSupport) → IsOwn s → decrypt_all cs s ≡ map decrypt_once cs
  unfolding decrypt_all
  decrypt_all_transparent [] s own = refl
  decrypt_all_transparent (c ∷ cs) s own =
      let (same, own') = decrypt_lem c s own in
      ap (λ r. r ∷ decrypt_all cs (decrypt scheme params prv c s).1) same
      ∙ ap (λ l. decrypt_once c ∷ l) (decrypt_all_transparent cs _ own')
