-- ===== src/Algo/Decrypt.antt =====
-- algo/abe-support.cpp: `decrypt`, which keeps every content key that it has recovered.
use nac_abe.Common.{Bytes, text, Option, none, some, [], length, take}
use nac_abe.Common.Text.{c_string, bytes_eq}
use nac_abe.Common.Map.{Map, find, put}
use nac_abe.Common.Result.{Exception, nac_algo_error, undefined, or_throw}
use nac_abe.Common.Exec.{Exec, pure, lift, ◌>>=◌, ◌>>◌}
use nac_abe.Constants.{abe_type_cp_abe, abe_type_kp_abe}
use nac_abe.OpenAbe.{OpenAbe}
use nac_abe.Algo.Keys.{PublicParams, PrivateKey}
use nac_abe.Algo.Content.{CipherText}
use nac_abe.Algo.Context.{to_u32}

-- the singleton; the encrypted content key is the map's key
pub record AbeSupport : Type 0 where
  pub m_decrypted_content_keys : Map Bytes Bytes

abbrev pub fresh_support : AbeSupport
fresh_support = record { m_decrypted_content_keys = [] }

abbrev pub decrypt_error : Exception
decrypt_error = nac_algo_error (text "cannot encrypt the ciphertext using given private key.")

abbrev pub decryption_error : Exception
decryption_error = nac_algo_error (text "Decryption error!")

abbrev store : Bytes → Bytes → Exec AbeSupport (Unit {0})
store sealed key s =
    pure tt (record s { m_decrypted_content_keys = put sealed key s.m_decrypted_content_keys })

unfoldable pub clear_cached_content_keys : AbeSupport → AbeSupport
clear_cached_content_keys s = record s { m_decrypted_content_keys = [] }

module _ ⦃abe : OpenAbe⦄ where
  -- Steps 0 to 2: recover the content key with the private key, and keep it.
  unfoldable pub recover_key : Bytes → PublicParams → PrivateKey → Bytes → Exec AbeSupport Bytes
  recover_key scheme params prv sealed = do
    c ← lift (or_throw decrypt_error (abe.import_public_params params.m_pub (abe.context scheme)))
    c' ← lift (or_throw decrypt_error (abe.enable_key_manager (text "user1") c))
    c'' ← lift (or_throw decrypt_error (abe.import_user_key (text "key1") prv.m_prv c'))
    result ← lift (or_throw decrypt_error (abe.decrypt sealed c''))
    key ← lift (or_throw decryption_error result)
    store sealed key
    pure key

  -- The cached key, or the one that `recover_key` finds.
  unfoldable pub content_key_of : Bytes → PublicParams → PrivateKey → Bytes → Exec AbeSupport Bytes
  unfolding recover_key
  content_key_of scheme params prv sealed s = elim (find sealed s.m_decrypted_content_keys) [
    | some key ↦ pure key s
    | none ↦ recover_key scheme params prv sealed s
  ]

  -- Steps 3 and 4: the buffer takes the text's size as a `uint32_t`.
  unfoldable pub recovered_content : Bytes → Bytes → Option Bytes
  recovered_content key content = elim (abe.sym_decrypt key content) [
    | none ↦ none
    | some plain ↦ some (take (to_u32 (length plain)) plain)
  ]

  unfoldable pub decrypt : Bytes → PublicParams → PrivateKey → CipherText → Exec AbeSupport Bytes
  unfolding recovered_content
  decrypt scheme params prv cipher = do
    sealed ← lift (or_throw undefined (c_string cipher.m_content_key.m_enc_aes_key))
    key ← content_key_of scheme params prv sealed
    content ← lift (or_throw undefined (c_string cipher.m_content))
    lift (or_throw decrypt_error (recovered_content key content))

  unfoldable pub cp_decrypt : PublicParams → PrivateKey → CipherText → Exec AbeSupport Bytes
  cp_decrypt = decrypt abe_type_cp_abe

  unfoldable pub kp_decrypt : PublicParams → PrivateKey → CipherText → Exec AbeSupport Bytes
  kp_decrypt = decrypt abe_type_kp_abe
