-- ===== src/Algo/Cache.antt =====
-- algo/abe-support.cpp: the cache of decrypted content keys.
use mathlib.Core.Path.{subst}
use nac_abe.Common.{
  sym, ◌≢◌, Bytes, text, ◌≡◌, Option, none, some, arith, Option-cases, Bool-cases, ◌⊎◌, inl, inr,
}
use nac_abe.Common.Text.{c_string, bytes_eq, bytes_beq, bytes_beq_iff}
use nac_abe.Common.Map.{find, put, find-put}
use nac_abe.Common.Result.{ok, err, Exception, nac_algo_error}
use nac_abe.Common.Exec.{Exec-cases}
use nac_abe.OpenAbe.{OpenAbe, unseal}
use nac_abe.Algo.Keys.{PublicParams, PrivateKey}
use nac_abe.Algo.Content.{CipherText}
use nac_abe.Algo.Decrypt.{
  recovered_content, AbeSupport, decrypt_error, decryption_error, recover_key, content_key_of,
  decrypt,
}

abbrev pub cached : AbeSupport → Bytes → Option Bytes
cached s sealed = find sealed s.m_decrypted_content_keys

module _ ⦃abe : OpenAbe⦄ where
  pub recover_key_lem :
      (scheme : Bytes) (params : PublicParams) (prv : PrivateKey) (sealed key : Bytes)
      (s : AbeSupport)
      → unseal scheme params.m_pub (text "user1") (text "key1") prv.m_prv sealed ≡ some (some key)
      → recover_key scheme params prv sealed s ≡ (
        ok key,
        record s { m_decrypted_content_keys = put sealed key s.m_decrypted_content_keys },
      )
  unfolding recover_key unseal
  recover_key_lem scheme params prv sealed key s h = ground arith

  -- The private key is read where the cache has no entry, and nowhere else.
  pub content_key_of-cached :
      (scheme : Bytes) (params : PublicParams) (prv : PrivateKey) (sealed key : Bytes)
      (s : AbeSupport)
      → cached s sealed ≡ some key
      → content_key_of scheme params prv sealed s ≡ (ok key, s)
  unfolding content_key_of
  content_key_of-cached scheme params prv sealed key s h = rw (h, content_key_of)

  pub content_key_of-new :
      (scheme : Bytes) (params : PublicParams) (prv : PrivateKey) (sealed : Bytes) (s : AbeSupport)
      → cached s sealed ≡ none
      → content_key_of scheme params prv sealed s ≡ recover_key scheme params prv sealed s
  unfolding content_key_of
  content_key_of-new scheme params prv sealed s h = rw (h, content_key_of)

  recover_key-cached :
      (scheme : Bytes) (params : PublicParams) (prv : PrivateKey) (sealed key : Bytes)
      (s s' : AbeSupport)
      → recover_key scheme params prv sealed s ≡ (ok key, s')
      → cached s' sealed ≡ some key
  unfolding recover_key
  recover_key-cached scheme params prv sealed key s s' h =
      ground
        (arith, find-put sealed sealed key s.m_decrypted_content_keys, bytes_beq_iff sealed sealed)

  pub content_key_of-caches :
      (scheme : Bytes) (params : PublicParams) (prv : PrivateKey) (sealed key : Bytes)
      (s s' : AbeSupport)
      → content_key_of scheme params prv sealed s ≡ (ok key, s')
      → cached s' sealed ≡ some key
  unfolding content_key_of
  content_key_of-caches scheme params prv sealed key s s' h =
      ground (arith, recover_key-cached scheme params prv sealed key s s')

  -- What a decryption that returned went through.
  pub decrypt_returned :
      (scheme : Bytes) (params : PublicParams) (prv : PrivateKey) (c : CipherText)
      (s s' : AbeSupport) (m : Bytes)
      → decrypt scheme params prv c s ≡ (ok m, s')
      → (sealed key content : Bytes) × (c_string c.m_content_key.m_enc_aes_key ≡ some sealed)
        × (content_key_of scheme params prv sealed s ≡ (ok key, s'))
        × (c_string c.m_content ≡ some content)
        × (recovered_content key content ≡ some m)
  unfolding decrypt
  decrypt_returned scheme params prv c s s' m h =
      elim (Option-cases (c_string c.m_content_key.m_enc_aes_key)) [
        | inl e ↦ absurd (ground arith)
        | inr (sealed, e) ↦ elim (Exec-cases (content_key_of scheme params prv sealed s)) [
          | inr (x, t, e') ↦ absurd (ground arith)
          | inl (key, t, e') ↦ elim (Option-cases (c_string c.m_content)) [
            | inl e'' ↦ absurd (ground arith)
            | inr (content, e'') ↦ (sealed, key, content, e, ground arith, e'', ground arith)
          ]
        ]
      ]

  pub decrypt_lem :
      (scheme : Bytes) (params : PublicParams) (prv : PrivateKey) (c : CipherText)
      (s s' : AbeSupport) (sealed key content m : Bytes)
      → c_string c.m_content_key.m_enc_aes_key ≡ some sealed
      → content_key_of scheme params prv sealed s ≡ (ok key, s')
      → c_string c.m_content ≡ some content
      → recovered_content key content ≡ some m
      → decrypt scheme params prv c s ≡ (ok m, s')
  unfolding decrypt
  decrypt_lem scheme params prv c s s' sealed key content m h h' h'' h3 = ground arith

  -- Once an object has been decrypted, the same object is decrypted again with any private key, any
  -- public parameters and either scheme: the cached content key decides alone.
  pub decrypt_again :
      (scheme scheme' : Bytes) (params params' : PublicParams) (prv prv' : PrivateKey)
      (c : CipherText) (s s' : AbeSupport) (m : Bytes)
      → decrypt scheme params prv c s ≡ (ok m, s')
      → decrypt scheme' params' prv' c s' ≡ (ok m, s')
  decrypt_again scheme scheme' params params' prv prv' c s s' m h =
      let (sealed, key, content, e, e', e'', e3) = decrypt_returned scheme params prv c s s' m h in
      decrypt_lem scheme' params' prv' c s' s' sealed key content m e
        (content_key_of-cached scheme' params' prv' sealed key s'
          (content_key_of-caches scheme params prv sealed key s s' e'))
        e'' e3

  -- Every entry of the cache is a content key that OpenABE recovered, under some scheme, parameters
  -- and private key, from the encrypted content key under which it is filed.
  abbrev pub IsHonest : AbeSupport → Type 0
  IsHonest s =
      (sealed key : Bytes)
      → cached s sealed ≡ some key
      → (scheme mpk prv : Bytes) × (unseal scheme mpk (text "user1") (text "key1") prv sealed
          ≡ some (some key))

  -- A call of `recover_key` adds what OpenABE recovered, or changes nothing.
  recover_key-cases :
      (scheme : Bytes) (params : PublicParams) (prv : PrivateKey) (sealed : Bytes) (s : AbeSupport)
      → ((recover_key scheme params prv sealed s).1 ≡ s)
        ⊎ ((key : Bytes) × (unseal scheme params.m_pub (text "user1") (text "key1") prv.m_prv sealed
              ≡ some (some key)))
  recover_key-cases scheme params prv sealed s =
      elim (Option-cases
        (unseal scheme params.m_pub (text "user1") (text "key1") prv.m_prv sealed)) [
          | inl e ↦ inl (unfold recover_key unseal in ground arith)
          | inr (some key, e) ↦ inr (key, e)
          | inr (none, e) ↦ inl (unfold recover_key unseal in ground arith)
        ]

  kept-IsHonest :
      (scheme : Bytes) (mpk prv sealed key : Bytes) (s : AbeSupport)
      → IsHonest s
      → unseal scheme mpk (text "user1") (text "key1") prv sealed ≡ some (some key)
      → IsHonest (record s { m_decrypted_content_keys = put sealed key s.m_decrypted_content_keys })
  kept-IsHonest scheme mpk prv sealed key s h u sealed' key' e =
      elim (Bool-cases (bytes_beq sealed sealed')) [
        | inr other ↦
            h sealed' key' (ground (arith, find-put sealed sealed' key s.m_decrypted_content_keys))
        | inl same ↦
            let q : sealed ≡ sealed' = (bytes_beq_iff sealed sealed').0 same in
            let k : key ≡ key' =
              ground (arith, find-put sealed sealed' key s.m_decrypted_content_keys) in
            (scheme, mpk, prv, rw (← q, ← k) u)
      ]

  recover_key-IsHonest :
      (scheme : Bytes) (params : PublicParams) (prv : PrivateKey) (sealed : Bytes) (s : AbeSupport)
      → IsHonest s
      → IsHonest (recover_key scheme params prv sealed s).1
  recover_key-IsHonest scheme params prv sealed s h =
      elim (recover_key-cases scheme params prv sealed s) [
        | inl e ↦ subst IsHonest (sym e) h
        | inr (key, u) ↦
            rw (recover_key_lem scheme params prv sealed key s u)
              (kept-IsHonest scheme params.m_pub prv.m_prv sealed key s h u)
      ]

  content_key_of-IsHonest :
      (scheme : Bytes) (params : PublicParams) (prv : PrivateKey) (sealed : Bytes) (s : AbeSupport)
      → IsHonest s
      → IsHonest (content_key_of scheme params prv sealed s).1
  content_key_of-IsHonest scheme params prv sealed s h = elim (Option-cases (cached s sealed)) [
    | inl e ↦
        rw (content_key_of-new scheme params prv sealed s e)
          (recover_key-IsHonest scheme params prv sealed s h)
    | inr (key, e) ↦ rw (content_key_of-cached scheme params prv sealed key s e) h
  ]

  decrypt_state :
      (scheme : Bytes) (params : PublicParams) (prv : PrivateKey) (c : CipherText) (s : AbeSupport)
      → ((decrypt scheme params prv c s).1 ≡ s)
        ⊎ ((sealed : Bytes) × ((decrypt scheme params prv c s).1
              ≡ (content_key_of scheme params prv sealed s).1))
  decrypt_state scheme params prv c s =
      elim (Option-cases (c_string c.m_content_key.m_enc_aes_key)) [
        | inl e ↦ inl (unfold decrypt in ground arith)
        | inr (sealed, e) ↦ inr (sealed, unfold decrypt in ground arith)
      ]

  -- Every decryption keeps the cache honest, also one that throws: an entry is a content key that
  -- OpenABE recovered, with some private key, from the encrypted content key that it is filed under.
  pub decrypt-IsHonest :
      (scheme : Bytes) (params : PublicParams) (prv : PrivateKey) (c : CipherText) (s : AbeSupport)
      → IsHonest s
      → IsHonest (decrypt scheme params prv c s).1
  decrypt-IsHonest scheme params prv c s h = elim (decrypt_state scheme params prv c s) [
    | inl e ↦ subst IsHonest (sym e) h
    | inr (sealed, e) ↦
        subst IsHonest (sym e) (content_key_of-IsHonest scheme params prv sealed s h)
  ]

  pub recover_key_refused :
      (scheme : Bytes) (params : PublicParams) (prv : PrivateKey) (sealed : Bytes) (s : AbeSupport)
      → ((key : Bytes)
          → unseal scheme params.m_pub (text "user1") (text "key1") prv.m_prv sealed
            ≢ some (some key))
      → (message : Bytes) × (recover_key scheme params prv sealed s
          ≡ (err (nac_algo_error message), s))
  recover_key_refused scheme params prv sealed s h =
      elim (Option-cases
        (unseal scheme params.m_pub (text "user1") (text "key1") prv.m_prv sealed)) [
          | inl e ↦ (_, thrown e)
          | inr (some key, e) ↦ absurd (h key e)
          | inr (none, e) ↦ (_, denied e)
        ]
    where
      thrown :
          unseal scheme params.m_pub (text "user1") (text "key1") prv.m_prv sealed ≡ none
          → recover_key scheme params prv sealed s ≡ (err decrypt_error, s)
      thrown e = unfold recover_key unseal in ground arith

      denied :
          unseal scheme params.m_pub (text "user1") (text "key1") prv.m_prv sealed ≡ some none
          → recover_key scheme params prv sealed s ≡ (err decryption_error, s)
      denied e = unfold recover_key unseal in ground arith

  pub decrypt_thrown :
      (scheme : Bytes) (params : PublicParams) (prv : PrivateKey) (c : CipherText)
      (s s' : AbeSupport) (sealed : Bytes) (x : Exception)
      → c_string c.m_content_key.m_enc_aes_key ≡ some sealed
      → content_key_of scheme params prv sealed s ≡ (err x, s')
      → decrypt scheme params prv c s ≡ (err x, s')
  unfolding decrypt
  decrypt_thrown scheme params prv c s s' sealed x h k = ground arith
