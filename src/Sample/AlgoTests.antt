-- ===== src/Sample/AlgoTests.antt =====
-- The theorems on keys, the cache and `ABESupport` at concrete inputs.
use nac_abe.Common.{Bytes, text, ◌≡◌, refl, [], ◌∷◌, arith}
use nac_abe.Common.Text.{c_string}
use nac_abe.Common.Map.{find, put}
use nac_abe.Common.Result.{ok, err, nac_algo_error}
use nac_abe.Algo.Keys.{PublicParams, MasterKey, PrivateKey}
use nac_abe.Algo.Content.{CipherText}
use nac_abe.Algo.Context.{to_u32, c_buffer, init, prv_key_gen, content_key_gen, encrypt}
use nac_abe.Algo.Support.{
  policy_string, cp_init, cp_prv_key_gen, cp_encrypt, kp_init, kp_prv_key_gen, kp_encrypt,
}
use nac_abe.Algo.Decrypt.{
  AbeSupport, fresh_support, recover_key, content_key_of, decrypt, cp_decrypt, kp_decrypt,
}
use nac_abe.Algo.Cache.{decrypt_again}
use nac_abe.Algo.RoundTrip.{cp_decrypt-cp_encrypt, kp_decrypt-kp_encrypt, decrypt_refused}
use nac_abe.Sample.Codec.{frames, unframes}
use nac_abe.Sample.Abe.{toy_abe, toy_secure, toy_fits, bounded, key_of, sealed_of}

abbrev pub params : PublicParams
params = record { m_pub = 1 ∷ [] }

abbrev pub master : MasterKey
master = record { m_msk = 1 ∷ [] }

abbrev pub attribute : Bytes
attribute = text "a"

abbrev pub prv : PrivateKey
prv = record { m_prv = 2 ∷ 3 ∷ 1 ∷ 2 ∷ 99 ∷ 1 ∷ [] }

abbrev pub object : CipherText
object = record {
  m_content_key = record {
    m_aes_key = 1 ∷ [];
    m_enc_aes_key = 2 ∷ 3 ∷ 1 ∷ 2 ∷ 99 ∷ 1 ∷ 2 ∷ 3 ∷ 1 ∷ 0 ∷ [];
  };
  m_content = 2 ∷ 3 ∷ 1 ∷ 2 ∷ 9 ∷ 10 ∷ 1 ∷ 0 ∷ [];
  m_plain_text_size = 2;
}

object_made : cp_encrypt params attribute (7 ∷ 8 ∷ []) 0 0 0 ≡ ok object
unfolding cp_encrypt content_key_gen encrypt c_buffer to_u32 bounded frames sealed_of
object_made = refl

cp_decrypt-cp_encrypt_example : (cp_decrypt params prv object fresh_support).0 ≡ ok (7 ∷ 8 ∷ [])
unfolding cp_init init policy_string cp_prv_key_gen prv_key_gen key_of cp_encrypt content_key_gen
    encrypt c_buffer to_u32 bounded frames sealed_of toy_secure find
cp_decrypt-cp_encrypt_example =
    cp_decrypt-cp_encrypt toy_secure toy_fits 0 0 0 0 0 params master (attribute ∷ []) attribute
      attribute (7 ∷ 8 ∷ []) prv object fresh_support refl refl refl refl refl (omega arith)
      (λ sealed key e f. cc)

kp_decrypt-kp_encrypt_example : (kp_decrypt params prv object fresh_support).0 ≡ ok (7 ∷ 8 ∷ [])
unfolding kp_init init policy_string kp_prv_key_gen prv_key_gen key_of kp_encrypt content_key_gen
    encrypt c_buffer to_u32 bounded frames sealed_of toy_secure find
kp_decrypt-kp_encrypt_example =
    kp_decrypt-kp_encrypt toy_secure toy_fits 0 0 0 0 0 params master (attribute ∷ []) attribute
      attribute (7 ∷ 8 ∷ []) prv object fresh_support refl refl refl refl refl (omega arith)
      (λ sealed key e f. cc)

-- a key for another attribute
abbrev other_prv : PrivateKey
other_prv = record { m_prv = 2 ∷ 3 ∷ 1 ∷ 2 ∷ 100 ∷ 1 ∷ [] }

decrypt_refused_example :
    (message : Bytes) × (decrypt (text "CP-ABE") params other_prv object fresh_support
      ≡ (err (nac_algo_error message), fresh_support))
unfolding init prv_key_gen key_of content_key_gen encrypt c_buffer to_u32 bounded frames sealed_of
    toy_secure find
decrypt_refused_example =
    decrypt_refused toy_secure toy_fits (text "CP-ABE") 0 0 0 0 0 params master (text "b") attribute
      (7 ∷ 8 ∷ []) other_prv object.m_content_key object fresh_support refl refl refl refl refl
      (λ sealed e. refl)

abbrev warm : AbeSupport
warm = record { m_decrypted_content_keys = (2 ∷ 3 ∷ 1 ∷ 2 ∷ 99 ∷ 1 ∷ 2 ∷ 3 ∷ 1 ∷ [], 1 ∷ []) ∷ [] }

-- The other key is refused on a fresh cache, and opens the object after its owner has.
decrypt_again_example :
    decrypt (text "CP-ABE") params other_prv object warm ≡ (ok (7 ∷ 8 ∷ []), warm)
unfolding decrypt content_key_of recover_key c_string unframes find put to_u32
decrypt_again_example =
    decrypt_again (text "CP-ABE") (text "CP-ABE") params params prv other_prv object fresh_support
      warm (7 ∷ 8 ∷ []) refl
