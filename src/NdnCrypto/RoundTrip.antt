-- ===== src/NdnCrypto/RoundTrip.antt =====
-- ndn-crypto/data-enc-dec.cpp: decryption of what has been encrypted.
use nac_abe.Common.{Bytes, ◌≡◌, refl, some, [], ◌∷◌, arith}
use nac_abe.Common.Result.{ok, or_throw-eq-ok, >>=-eq-ok}
use nac_abe.Constants.{
  tlv_content, tlv_encrypted_content, tlv_encrypted_aes_key, tlv_initial_vector,
}
use nac_abe.Ndn.{Ndn}
use nac_abe.Security.{Security}
use nac_abe.NdnCrypto.{
  Crypto, CryptoDraw, aes_cbc, generate_key, generate_iv, aes_encrypt, aes_decrypt, rsa_encrypt,
  rsa_decrypt, sealed_block, encrypt_data_content_with_ck, value_of, decrypt_data_content,
  decrypt_data_content_tpm,
}

module _ ⦃ndn : Ndn⦄ ⦃sec : Security⦄ ⦃crypto : Crypto⦄ where
  open ndn use {Block, elements, push_back, make_empty_block, make_binary_block, type_of, value}

  sealed_elements :
      (p k iv : Bytes)
      → elements (sealed_block p k iv)
        ≡ some (
            make_binary_block tlv_encrypted_content p
            ∷ make_binary_block tlv_encrypted_aes_key k
            ∷ make_binary_block tlv_initial_vector iv
            ∷ [])
  sealed_elements p k iv =
      ndn.elements-push_back _ _ _ (
        ndn.elements-push_back _ _ _
          (ndn.elements-push_back _ _ _ (ndn.elements-empty tlv_content)))

  -- The three fields are read back.
  sealed_fields :
      (p k iv : Bytes)
      → (value_of (sealed_block p k iv) tlv_initial_vector ≡ ok iv)
        × (value_of (sealed_block p k iv) tlv_encrypted_aes_key ≡ ok k)
        × (value_of (sealed_block p k iv) tlv_encrypted_content ≡ ok p)
  sealed_fields p k iv =
      rw
        (
          sealed_elements p k iv,
          ndn.type_of-binary,
          ndn.type_of-binary,
          ndn.type_of-binary,
          ndn.value-binary,
          ndn.value-binary,
          ndn.value-binary,
        )
        (refl, refl, refl)

  record Sealing (payload public_key : Bytes) (draw : CryptoDraw) (b : Block) : Type 0 where
    key : Bytes
    iv : Bytes
    sealed : Bytes
    sealed_key : Bytes
    block : b ≡ sealed_block sealed sealed_key iv
    payload_sealed : crypto.cbc_encrypt key iv payload ≡ some sealed
    key_sealed : crypto.public_encrypt public_key key draw.rsa_seed ≡ some sealed_key

  sealing :
      (payload public_key : Bytes) (draw : CryptoDraw) (b : Block)
      → encrypt_data_content_with_ck payload public_key draw ≡ ok b
      → Sealing payload public_key draw b
  unfolding encrypt_data_content_with_ck aes_encrypt rsa_encrypt
  sealing payload public_key draw b h =
      let (key, _, h1) = >>=-eq-ok (generate_key draw.aes_key_seed crypto.default_key_size) _ h in
      let (iv, _, h2) = >>=-eq-ok (generate_iv draw.iv_seed 16) _ h1 in
      let (sealed, e, h3) = >>=-eq-ok (aes_encrypt key payload iv aes_cbc) _ h2 in
      let (sealed_key, e', h4) = >>=-eq-ok (rsa_encrypt public_key key draw.rsa_seed) _ h3 in
      record {
        key = key;
        iv = iv;
        sealed = sealed;
        sealed_key = sealed_key;
        block = ground arith;
        payload_sealed = or_throw-eq-ok _ _ e;
        key_sealed = or_throw-eq-ok _ _ e';
      }

  -- A payload that has been encrypted for a public key is what its private key decrypts.
  pub decrypt_data_content-encrypt :
      (payload private_key public_key : Bytes) (draw : CryptoDraw) (b : Block)
      → crypto.derive_public_key private_key ≡ some public_key
      → encrypt_data_content_with_ck payload public_key draw ≡ ok b
      → decrypt_data_content b private_key ≡ ok payload
  unfolding decrypt_data_content rsa_decrypt aes_decrypt
  decrypt_data_content-encrypt payload private_key public_key draw b d h =
      let s = sealing payload public_key draw b h in
      rw s.block (
        rw
          (
            (sealed_fields s.sealed s.sealed_key s.iv).0,
            (sealed_fields s.sealed s.sealed_key s.iv).1,
            (sealed_fields s.sealed s.sealed_key s.iv).2,
            crypto.private_decrypt-public_encrypt private_key public_key s.key s.sealed_key
                draw.rsa_seed d s.key_sealed,
            crypto.cbc_decrypt-cbc_encrypt s.key s.iv payload s.sealed s.payload_sealed,
          )
          refl)

  -- A payload that has been encrypted for a certificate is what a TPM decrypts that holds the
  -- certificate's private key under its key name.
  pub decrypt_data_content_tpm-encrypt :
      (payload private_key : Bytes) (c : sec.Certificate) (tpm : crypto.Tpm) (draw : CryptoDraw)
      (b : Block)
      → crypto.tpm_key tpm (sec.key_name c) ≡ some private_key
      → crypto.derive_public_key private_key ≡ some (sec.public_key c)
      → encrypt_data_content_with_ck payload (sec.public_key c) draw ≡ ok b
      → decrypt_data_content_tpm b tpm (sec.cert_name c) ≡ ok payload
  unfolding decrypt_data_content_tpm aes_decrypt
  decrypt_data_content_tpm-encrypt payload private_key c tpm draw b k d h =
      let s = sealing payload (sec.public_key c) draw b h in
      rw s.block (
        rw
          (
            (sealed_fields s.sealed s.sealed_key s.iv).0,
            (sealed_fields s.sealed s.sealed_key s.iv).1,
            (sealed_fields s.sealed s.sealed_key s.iv).2,
            sec.key_name_from_cert_name-cert_name c,
            crypto.tpm_decrypt_lem tpm (sec.key_name c) private_key s.sealed_key k,
            crypto.private_decrypt-public_encrypt private_key (sec.public_key c) s.key s.sealed_key
                draw.rsa_seed d s.key_sealed,
            crypto.cbc_decrypt-cbc_encrypt s.key s.iv payload s.sealed s.payload_sealed,
          )
          refl)
