-- ===== src/Algo/RoundTrip.antt =====
-- algo/abe-support.cpp: decryption of what has been encrypted.
use nac_abe.Common.{
  ℕ, Bytes, text, ◌≡◌, ◌≤◌, sym, ap, ◌∙◌, none, some, List, true, false, arith, Option-cases, inl,
  inr, length, take, take_of_length-le,
}
use nac_abe.Common.Text.{c_string, c_string-append}
use nac_abe.Common.Result.{Result, ok, err, nac_algo_error, >>=-eq-ok}
use nac_abe.Constants.{abe_type_cp_abe, abe_type_kp_abe}
use nac_abe.OpenAbe.{OpenAbe, IsSecure, OutputsFit, seal, unseal}
use nac_abe.Algo.Keys.{PublicParams, MasterKey, PrivateKey}
use nac_abe.Algo.Content.{ContentKey, CipherText}
use nac_abe.Algo.Context.{
  to_u32, private_key_id, c_buffer, init, prv_key_gen, content_key_gen, encrypt,
}
use nac_abe.Algo.Support.{
  policy_string, cp_init, kp_init, cp_prv_key_gen, kp_prv_key_gen, cp_encrypt, kp_encrypt,
}
use nac_abe.Algo.Decrypt.{
  recovered_content, AbeSupport, content_key_of, decrypt, cp_decrypt, kp_decrypt,
}
use nac_abe.Algo.Inversion.{
  to_u32_lem, c_buffer_lem, init-setup, prv_key_gen-issue, content_key_gen-seal, encrypt_inverted,
}
use nac_abe.Algo.Cache.{
  cached, recover_key_lem, recover_key_refused, decrypt_thrown, content_key_of-cached,
  content_key_of-new, decrypt_lem,
}

-- What the cache may hold for an object's content key: nothing, or the key itself.
abbrev pub Agrees : AbeSupport → CipherText → Type 0
Agrees s c =
    (sealed key : Bytes)
    → c_string c.m_content_key.m_enc_aes_key ≡ some sealed
    → cached s sealed ≡ some key
    → key ≡ c.m_content_key.m_aes_key

module _ ⦃abe : OpenAbe⦄ (sec : IsSecure) {limit : ℕ} (fit : OutputsFit limit) where
  sealed_buffer :
      (scheme mpk input : Bytes) (r r' : ℕ) (sealed : Bytes)
      → seal scheme mpk input (abe.generate_symmetric_key r) r' ≡ some sealed
      → c_string (c_buffer sealed) ≡ some sealed
  sealed_buffer scheme mpk input r r' sealed h =
      ap c_string (c_buffer_lem sealed (fit.seal_fits scheme mpk input r r' sealed h))
      ∙ c_string-append sealed _
          (sec.sealed_text scheme mpk input (abe.generate_symmetric_key r) r' sealed h)

  content_buffer :
      (key plain : Bytes) (r : ℕ) (content : Bytes)
      → length plain ≤ limit
      → abe.sym_encrypt key plain r ≡ some content
      → c_string (c_buffer content) ≡ some content
  content_buffer key plain r content l h =
      ap c_string (c_buffer_lem content (fit.sym_fits key plain r content l h))
      ∙ c_string-append content _ (sec.sym_text key plain r content h)

  all_taken : (plain : Bytes) → length plain ≤ limit → take (to_u32 (length plain)) plain ≡ plain
  all_taken plain l =
      rw (to_u32_lem (length plain) (omega (arith, fit.limit_fits)))
        (take_of_length-le (length plain) plain (omega arith))

  recovered_lem :
      (key content plain : Bytes)
      → abe.sym_decrypt key content ≡ some plain
      → length plain ≤ limit
      → recovered_content key content ≡ some plain
  unfolding recovered_content
  recovered_lem key content plain h l = rw (recovered_content, h) (ap some (all_taken plain l))

  -- An object that `encrypt` made under a content key decrypts to its plaintext as soon as the
  -- content key is at hand.
  opened :
      (scheme : Bytes) (params : PublicParams) (prv : PrivateKey) (ck : ContentKey) (plain : Bytes)
      (r : ℕ) (c : CipherText) (s s' : AbeSupport) (sealed : Bytes)
      → length plain ≤ limit
      → encrypt ck plain r ≡ ok c
      → c_string ck.m_enc_aes_key ≡ some sealed
      → content_key_of scheme params prv sealed s ≡ (ok ck.m_aes_key, s')
      → decrypt scheme params prv c s ≡ (ok plain, s')
  opened scheme params prv ck plain r c s s' sealed l h e k =
      let (content, h', same, filled) = encrypt_inverted ck plain r c h in
      let sym = ap (λ t. abe.sym_encrypt ck.m_aes_key t r) (sym (all_taken plain l)) ∙ h' in
      decrypt_lem scheme params prv c s s' sealed ck.m_aes_key content plain
        (ap (λ (t : ContentKey). c_string t.m_enc_aes_key) same ∙ e) k
        (ap c_string filled ∙ content_buffer ck.m_aes_key plain r content l sym)
        (recovered_lem ck.m_aes_key content plain
          (sec.sym_decrypt-sym_encrypt ck.m_aes_key plain r content sym) l)

  -- The content key is recovered, from the cache or with the private key.
  recovered :
      (scheme : Bytes) (params : PublicParams) (prv : PrivateKey) (sealed key : Bytes)
      (s : AbeSupport)
      → unseal scheme params.m_pub (text "user1") (text "key1") prv.m_prv sealed ≡ some (some key)
      → ((key' : Bytes) → cached s sealed ≡ some key' → key' ≡ key)
      → (s' : AbeSupport) × (content_key_of scheme params prv sealed s ≡ (ok key, s'))
  recovered scheme params prv sealed key s h agrees = elim (Option-cases (cached s sealed)) [
    | inl e ↦ (
      _,
      content_key_of-new scheme params prv sealed s e
          ∙ recover_key_lem scheme params prv sealed key s h,
    )
    | inr (key', e) ↦
        (s, content_key_of-cached scheme params prv sealed key s (e ∙ ap some (agrees key' e)))
  ]

  decrypt-encrypt :
      (scheme : Bytes) (r r1 r2 r3 r4 : ℕ) (params : PublicParams) (master : MasterKey)
      (key_input input plain : Bytes) (prv : PrivateKey) (ck : ContentKey) (c : CipherText)
      (s : AbeSupport)
      → init scheme r ≡ ok (params, master)
      → prv_key_gen scheme params master key_input r1 ≡ ok prv
      → content_key_gen scheme params input r2 r3 ≡ ok ck
      → encrypt ck plain r4 ≡ ok c
      → sec.satisfies scheme key_input input ≡ true
      → length plain ≤ limit
      → Agrees s c
      → (decrypt scheme params prv c s).0 ≡ ok plain
  decrypt-encrypt scheme r r1 r2 r3 r4 params master key_input input plain prv ck c s hi hk hc he hs
        l agrees =
      let (sealed, sealing, aes, enc) = content_key_gen-seal scheme params input r2 r3 ck hc in
      let (content, _, same, _) = encrypt_inverted ck plain r4 c he in
      let at : c_string ck.m_enc_aes_key ≡ some sealed =
        ap c_string enc ∙ sealed_buffer scheme params.m_pub input r2 r3 sealed sealing in
      let agrees' : (key' : Bytes) → cached s sealed ≡ some key' → key' ≡ ck.m_aes_key = λ key' e.
        agrees sealed key' (ap (λ (t : ContentKey). c_string t.m_enc_aes_key) same ∙ at) e
        ∙ ap (λ (t : ContentKey). t.m_aes_key) same in
      let (s', k) =
        recovered scheme params prv sealed ck.m_aes_key s
          (sec.unseal-seal scheme r r1 r3 params.m_pub master.m_msk private_key_id key_input
              prv.m_prv (text "user1") (text "key1") input (abe.generate_symmetric_key r2) sealed
              (init-setup scheme r params master hi)
              (prv_key_gen-issue scheme params master key_input r1 prv hk) sealing hs
            ∙ ap (λ t. some (some t)) (sym aes))
          agrees' in
      ap (λ (t : Result Bytes × AbeSupport). t.0)
        (opened scheme params prv ck plain r4 c s s' sealed l he at k)

  -- CP-ABE: what is encrypted for a policy is decrypted to the plaintext with the key that the same
  -- authority issued for an attribute list that satisfies the policy. The plaintext is within the
  -- size limit, and the cache holds nothing else for the object's content key.
  pub cp_decrypt-cp_encrypt :
      (r r1 r2 r3 r4 : ℕ) (params : PublicParams) (master : MasterKey) (attributes : List Bytes)
      (s policy plain : Bytes) (prv : PrivateKey) (c : CipherText) (support : AbeSupport)
      → cp_init r ≡ ok (params, master)
      → policy_string attributes ≡ ok s
      → cp_prv_key_gen params master attributes r1 ≡ ok prv
      → cp_encrypt params policy plain r2 r3 r4 ≡ ok c
      → sec.satisfies abe_type_cp_abe s policy ≡ true
      → length plain ≤ limit
      → Agrees support c
      → (cp_decrypt params prv c support).0 ≡ ok plain
  unfolding cp_init cp_prv_key_gen cp_encrypt cp_decrypt
  cp_decrypt-cp_encrypt r r1 r2 r3 r4 params master attributes s policy plain prv c support hi hs hk
        he sat l agrees =
      let (ck, hc, he') =
        >>=-eq-ok (content_key_gen abe_type_cp_abe params policy r2 r3) (λ k. encrypt k plain r4)
          he in
      decrypt-encrypt abe_type_cp_abe r r1 r2 r3 r4 params master s policy plain prv ck c support hi
        (ground arith) hc he' sat l agrees

  -- KP-ABE: what is encrypted for an attribute list is decrypted to the plaintext with the key that
  -- the same authority issued for a policy that the attributes satisfy. The plaintext is within the
  -- size limit, and the cache holds nothing else for the object's content key.
  pub kp_decrypt-kp_encrypt :
      (r r1 r2 r3 r4 : ℕ) (params : PublicParams) (master : MasterKey) (attributes : List Bytes)
      (s policy plain : Bytes) (prv : PrivateKey) (c : CipherText) (support : AbeSupport)
      → kp_init r ≡ ok (params, master)
      → policy_string attributes ≡ ok s
      → kp_prv_key_gen params master policy r1 ≡ ok prv
      → kp_encrypt params attributes plain r2 r3 r4 ≡ ok c
      → sec.satisfies abe_type_kp_abe policy s ≡ true
      → length plain ≤ limit
      → Agrees support c
      → (kp_decrypt params prv c support).0 ≡ ok plain
  unfolding kp_init kp_prv_key_gen kp_encrypt kp_decrypt
  kp_decrypt-kp_encrypt r r1 r2 r3 r4 params master attributes s policy plain prv c support hi hs hk
        he sat l agrees =
      let (ck, hc, he') =
        >>=-eq-ok (content_key_gen abe_type_kp_abe params s r2 r3) (λ k. encrypt k plain r4)
          (rw hs at he) in
      decrypt-encrypt abe_type_kp_abe r r1 r2 r3 r4 params master policy s plain prv ck c support hi
        hk hc he' sat l agrees

  -- Whoever holds a key whose input does not satisfy what the object is encrypted for gets a
  -- `NacAlgoError` and leaves the cache as it was, if the cache has no entry for the object's
  -- content key.
  pub decrypt_refused :
      (scheme : Bytes) (r r1 r2 r3 r4 : ℕ) (params : PublicParams) (master : MasterKey)
      (key_input input plain : Bytes) (prv : PrivateKey) (ck : ContentKey) (c : CipherText)
      (s : AbeSupport)
      → init scheme r ≡ ok (params, master)
      → prv_key_gen scheme params master key_input r1 ≡ ok prv
      → content_key_gen scheme params input r2 r3 ≡ ok ck
      → encrypt ck plain r4 ≡ ok c
      → sec.satisfies scheme key_input input ≡ false
      → ((sealed : Bytes) → c_string ck.m_enc_aes_key ≡ some sealed → cached s sealed ≡ none)
      → (message : Bytes) × (decrypt scheme params prv c s ≡ (err (nac_algo_error message), s))
  decrypt_refused scheme r r1 r2 r3 r4 params master key_input input plain prv ck c s hi hk hc he hs
        empty =
      let (sealed, sealing, aes, enc) = content_key_gen-seal scheme params input r2 r3 ck hc in
      let (content, _, same, _) = encrypt_inverted ck plain r4 c he in
      let at : c_string ck.m_enc_aes_key ≡ some sealed =
        ap c_string enc ∙ sealed_buffer scheme params.m_pub input r2 r3 sealed sealing in
      let (message, e) = recover_key_refused scheme params prv sealed s (
        sec.unseal_refused scheme r r1 r3 params.m_pub master.m_msk private_key_id key_input
          prv.m_prv (text "user1") (text "key1") input (abe.generate_symmetric_key r2) sealed
          (init-setup scheme r params master hi)
          (prv_key_gen-issue scheme params master key_input r1 prv hk) sealing hs) in
      (
        message,
        decrypt_thrown scheme params prv c s s sealed _
            (ap (λ (t : ContentKey). c_string t.m_enc_aes_key) same ∙ at)
            (content_key_of-new scheme params prv sealed s (empty sealed at) ∙ e),
      )
