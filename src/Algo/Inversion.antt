-- ===== src/Algo/Inversion.antt =====
-- algo/abe-support.cpp: what a call that returned has asked of OpenABE.
use nac_abe.Common.{
  ℕ, Bytes, ◌≡◌, inl, inr, Option-cases, some, [], ◌∷◌, ◌++◌, ◌<◌, ◌+◌, ◌^◌, length, take,
  take_of_length-le, length-append, arith,
}
use nac_abe.Common.Result.{ok}
use nac_abe.OpenAbe.{OpenAbe, setup, issue, seal}
use nac_abe.Algo.Keys.{PublicParams, MasterKey, PrivateKey}
use nac_abe.Algo.Content.{ContentKey, CipherText}
use nac_abe.Algo.Context.{
  to_u32, c_buffer, private_key_id, init, prv_key_gen, content_key_gen, encrypt,
}

pub to_u32_lem : (n : ℕ) → n < 2 ^ 32 → to_u32 n ≡ n
unfolding to_u32
to_u32_lem n h = omega arith

-- Below the bound nothing is cut off: the buffer is the text with its NUL.
pub c_buffer_lem : (s : Bytes) → length s + 1 < 2 ^ 32 → c_buffer s ≡ s ++ 0 ∷ []
unfolding c_buffer
c_buffer_lem s h =
    rw (to_u32_lem (length s) (omega arith), to_u32_lem (length s + 1) h)
      (take_of_length-le (length s + 1) (s ++ 0 ∷ []) (omega (arith, length-append s (0 ∷ []))))

module _ ⦃abe : OpenAbe⦄ where
  pub init-setup :
      (scheme : Bytes) (r : ℕ) (params : PublicParams) (master : MasterKey)
      → init scheme r ≡ ok (params, master)
      → setup scheme r ≡ some (params.m_pub, master.m_msk)
  unfolding init setup
  init-setup scheme r params master h = ground arith

  pub prv_key_gen-issue :
      (scheme : Bytes) (params : PublicParams) (master : MasterKey) (s : Bytes) (r : ℕ)
      (k : PrivateKey)
      → prv_key_gen scheme params master s r ≡ ok k
      → issue scheme params.m_pub master.m_msk private_key_id s r ≡ some k.m_prv
  unfolding prv_key_gen issue
  prv_key_gen-issue scheme params master s r k h = ground arith

  pub content_key_gen-seal :
      (scheme : Bytes) (params : PublicParams) (s : Bytes) (r r' : ℕ) (k : ContentKey)
      → content_key_gen scheme params s r r' ≡ ok k
      → (sealed : Bytes) × (seal scheme params.m_pub s (abe.generate_symmetric_key r) r'
          ≡ some sealed)
        × (k.m_aes_key ≡ abe.generate_symmetric_key r)
        × (k.m_enc_aes_key ≡ c_buffer sealed)
  unfolding content_key_gen seal
  content_key_gen-seal scheme params s r r' k h =
      elim (Option-cases (seal scheme params.m_pub s (abe.generate_symmetric_key r) r')) [
        | inl e ↦ absurd (ground arith)
        | inr (sealed, e) ↦ (sealed, e, ground arith, ground arith)
      ]

  pub encrypt_inverted :
      (k : ContentKey) (plaintext : Bytes) (r : ℕ) (c : CipherText)
      → encrypt k plaintext r ≡ ok c
      → (content : Bytes) × (abe.sym_encrypt k.m_aes_key
            (take (to_u32 (length plaintext)) plaintext)
            r
          ≡ some content)
        × (c.m_content_key ≡ k)
        × (c.m_content ≡ c_buffer content)
  unfolding encrypt
  encrypt_inverted k plaintext r c h = ground arith
