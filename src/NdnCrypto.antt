-- ===== src/NdnCrypto.antt =====
-- ndn-crypto: AES, RSA, and the encryption of a payload for the holder of an RSA key.
pub mod RoundTrip
use Prim.Native.Nat.{◌/◌}
use nac_abe.Common.{
  ℕ, Bytes, text, Bool, ◌≡◌, ◌++◌, Option, none, some, List, [], ◌∷◌, nat_beq, if◌then◌else◌,
}
use nac_abe.Common.Result.{
  Result, ok, err, Exception, nac_algo_error, transform_error, tlv_error, invalid_argument,
  or_throw, ◌>>=◌, ◌>>◌,
}
use nac_abe.Constants.{
  tlv_content, tlv_encrypted_content, tlv_encrypted_aes_key, tlv_initial_vector,
}
use nac_abe.Ndn.{Ndn, get_block}
use nac_abe.Security.{Security}
use nac_abe.Producer.Decimal.{to_string}

-- OpenSSL as ndn-cxx gives it, and the TPM: a parameter. `none` is an exception; a number seeds
-- what is drawn.
pub record Crypto ⦃ndn : Ndn⦄ ⦃sec : Security⦄ : Type 1 where
  -- `generateSecureBytes` on a buffer of that length
  pub random_bytes : ℕ → ℕ → Option Bytes
  -- the key size in bits of a default `AesKeyParams`
  pub default_key_size : ℕ
  -- the transform of a payload with key and initial vector, AES in CBC mode
  pub cbc_encrypt : Bytes → Bytes → Bytes → Option Bytes
  pub cbc_decrypt : Bytes → Bytes → Bytes → Option Bytes
  pub cbc_decrypt-cbc_encrypt :
      (key iv payload sealed : Bytes)
      → cbc_encrypt key iv payload ≡ some sealed
      → cbc_decrypt key iv sealed ≡ some payload
  -- `generatePrivateKey` saved as PKCS #1, the public key of such a key, and both operations
  pub generate_private_key : ℕ → ℕ → Option Bytes
  pub derive_public_key : Bytes → Option Bytes
  pub public_encrypt : Bytes → Bytes → ℕ → Option Bytes
  pub private_decrypt : Bytes → Bytes → Option Bytes
  pub private_decrypt-public_encrypt :
      (private_key public_key payload sealed : Bytes) (r : ℕ)
      → derive_public_key private_key ≡ some public_key
      → public_encrypt public_key payload r ≡ some sealed
      → private_decrypt private_key sealed ≡ some payload
  -- a TPM holds private keys by their names
  pub Tpm : Type 0
  pub tpm_key : Tpm → ndn.Name → Option Bytes
  pub tpm_decrypt : Tpm → Bytes → ndn.Name → Option Bytes
  pub tpm_decrypt_lem :
      (tpm : Tpm) (name : ndn.Name) (private_key sealed : Bytes)
      → tpm_key tpm name ≡ some private_key
      → tpm_decrypt tpm sealed name ≡ private_decrypt private_key sealed

-- The test for another mode is never true.
pub data AesBlockCipherMode : Type 0 where
  aes_cbc : AesBlockCipherMode

pub record CryptoDraw : Type 0 where
  pub aes_key_seed : ℕ
  pub iv_seed : ℕ
  pub rsa_seed : ℕ

module _ ⦃ndn : Ndn⦄ ⦃sec : Security⦄ ⦃crypto : Crypto⦄ where
  open ndn use {Name, Block, value, push_back, make_empty_block, make_binary_block}

  unfoldable pub generate_key : ℕ → ℕ → Result Bytes
  generate_key seed key_size =
      let length = key_size / 8 in
      or_throw
        (nac_algo_error (text "Cannot generate random AES key of length " ++ to_string length))
        (crypto.random_bytes seed length)

  unfoldable pub generate_iv : ℕ → ℕ → Result Bytes
  generate_iv seed iv_length =
      if nat_beq iv_length 0
      then err (nac_algo_error (text "IV length cannot be zero"))
      else or_throw
          (nac_algo_error (text "Cannot generate random IV of length " ++ to_string iv_length))
          (crypto.random_bytes seed iv_length)

  unfoldable pub aes_derive_encrypt_key : Bytes → Bytes
  aes_derive_encrypt_key key = key

  unfoldable pub aes_encrypt : Bytes → Bytes → Bytes → AesBlockCipherMode → Result Bytes
  aes_encrypt key payload iv aes_cbc = or_throw transform_error (crypto.cbc_encrypt key iv payload)

  unfoldable pub aes_decrypt : Bytes → Bytes → Bytes → AesBlockCipherMode → Result Bytes
  aes_decrypt key payload iv aes_cbc = or_throw transform_error (crypto.cbc_decrypt key iv payload)

  unfoldable pub rsa_generate_key : ℕ → ℕ → Result Bytes
  rsa_generate_key seed key_size =
      or_throw transform_error (crypto.generate_private_key seed key_size)

  unfoldable pub rsa_derive_encrypt_key : Bytes → Result Bytes
  rsa_derive_encrypt_key key = or_throw transform_error (crypto.derive_public_key key)

  unfoldable pub rsa_decrypt : Bytes → Bytes → Result Bytes
  rsa_decrypt key payload = or_throw transform_error (crypto.private_decrypt key payload)

  unfoldable pub rsa_encrypt : Bytes → Bytes → ℕ → Result Bytes
  rsa_encrypt key payload seed = or_throw transform_error (crypto.public_encrypt key payload seed)

  abbrev pub sealed_block : Bytes → Bytes → Bytes → Block
  sealed_block encrypted_payload encrypted_aes_key iv =
      push_back
        (push_back
          (push_back (make_empty_block tlv_content)
            (make_binary_block tlv_encrypted_content encrypted_payload))
          (make_binary_block tlv_encrypted_aes_key encrypted_aes_key))
        (make_binary_block tlv_initial_vector iv)

  unfoldable pub encrypt_data_content_with_ck : Bytes → Bytes → CryptoDraw → Result Block
  encrypt_data_content_with_ck payload rsa_key draw = do
    aes_key ← generate_key draw.aes_key_seed crypto.default_key_size
    iv ← generate_iv draw.iv_seed 16
    encrypted_payload ← aes_encrypt aes_key payload iv aes_cbc
    encrypted_aes_key ← rsa_encrypt rsa_key aes_key draw.rsa_seed
    ok (sealed_block encrypted_payload encrypted_aes_key iv)

  abbrev pub value_of : Block → ℕ → Result Bytes
  value_of b t = or_throw tlv_error (elim (get_block b t) [ none ↦ none | some e ↦ some (value e) ])

  -- With a private key at hand. Both overloads read the three fields in this order.
  unfoldable pub decrypt_data_content : Block → Bytes → Result Bytes
  decrypt_data_content b key = do
    iv ← value_of b tlv_initial_vector
    encrypted_aes_key ← value_of b tlv_encrypted_aes_key
    encrypted_payload ← value_of b tlv_encrypted_content
    aes_key ← rsa_decrypt key encrypted_aes_key
    aes_decrypt aes_key encrypted_payload iv aes_cbc

  -- With a private key in the TPM, under the certificate's key name. A TPM without the key gives a
  -- null pointer or throws; either comes as `none`.
  unfoldable pub decrypt_data_content_tpm : Block → crypto.Tpm → Name → Result Bytes
  decrypt_data_content_tpm b tpm cert_name = do
    iv ← value_of b tlv_initial_vector
    encrypted_aes_key ← value_of b tlv_encrypted_aes_key
    encrypted_payload ← value_of b tlv_encrypted_content
    key_name ← or_throw invalid_argument (sec.key_name_from_cert_name cert_name)
    aes_key ← or_throw transform_error (crypto.tpm_decrypt tpm encrypted_aes_key key_name)
    aes_decrypt aes_key encrypted_payload iv aes_cbc
