-- ===== src/Algo/Context.antt =====
-- algo/abe-support.cpp: the private methods of `ABESupport` that work on an OpenABE context, and
-- `encrypt`. A `try` block is a chain of calls, and its `catch` turns `none` into the error thrown.
use nac_abe.Common.{ℕ, Bytes, text, some, [], ◌∷◌, ◌++◌, ◌%◌, ◌^◌, ◌+◌, length, take}
use nac_abe.Common.Result.{Result, Exception, nac_algo_error, crypto_box_error, or_throw}
use nac_abe.OpenAbe.{OpenAbe, ◌>>=◌}
use nac_abe.Algo.Keys.{PublicParams, MasterKey, PrivateKey}
use nac_abe.Algo.Content.{ContentKey, CipherText}

-- `(uint32_t) n`
unfoldable pub to_u32 : ℕ → ℕ
to_u32 n = n % 2 ^ 32

-- `Buffer((uint8_t*) s.c_str(), (uint32_t) s.size() + 1)`: the sum is a 32-bit one too.
unfoldable pub c_buffer : Bytes → Bytes
c_buffer s = take (to_u32 (to_u32 (length s) + 1)) (s ++ 0 ∷ [])

abbrev pub private_key_id : Bytes
private_key_id = text "abe-priv-key"

abbrev pub keygen_error : Exception
keygen_error = nac_algo_error (text "cannot generate private key for the policy")

abbrev pub encrypt_error : Exception
encrypt_error =
    nac_algo_error (text "cannot encrypt the plaintext using given public paramater and policy.")

module _ ⦃abe : OpenAbe⦄ where
  -- No `try` here: what OpenABE throws goes to the caller.
  unfoldable pub init : Bytes → ℕ → Result (PublicParams × MasterKey)
  init scheme r = or_throw crypto_box_error (do
    c ← abe.generate_params r (abe.context scheme)
    some (
      record { m_pub = abe.export_public_params c },
      record { m_msk = abe.export_secret_params c },
    ))

  unfoldable pub prv_key_gen : Bytes → PublicParams → MasterKey → Bytes → ℕ → Result PrivateKey
  prv_key_gen scheme params master policy_or_attribute r = or_throw keygen_error (do
    c ← abe.import_public_params params.m_pub (abe.context scheme)
    c' ← abe.import_secret_params master.m_msk c
    c'' ← abe.keygen policy_or_attribute private_key_id r c'
    key ← abe.export_user_key private_key_id c''
    _ ← abe.delete_key private_key_id c''
    some (record { m_prv = key }))

  unfoldable pub content_key_gen : Bytes → PublicParams → Bytes → ℕ → ℕ → Result ContentKey
  content_key_gen scheme params policy_or_attribute r r' = or_throw encrypt_error (do
    c ← abe.import_public_params params.m_pub (abe.context scheme)
    let symmetric_key = abe.generate_symmetric_key r
    encrypted ← abe.encrypt policy_or_attribute symmetric_key r' c
    some (record { m_aes_key = symmetric_key; m_enc_aes_key = c_buffer encrypted }))

  -- OpenABE is handed `(uint32_t) size` octets of the plaintext.
  unfoldable pub encrypt : ContentKey → Bytes → ℕ → Result CipherText
  encrypt key plaintext r = or_throw encrypt_error (do
    ciphertext ← abe.sym_encrypt key.m_aes_key (take (to_u32 (length plaintext)) plaintext) r
    some (record {
      m_content_key = key;
      m_content = c_buffer ciphertext;
      m_plain_text_size = to_u32 (length plaintext);
    }))
