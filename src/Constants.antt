-- ===== src/Constants.antt =====
-- common.hpp: the TLV types, the name components and the ABE types.
use nac_abe.Common.{ℕ, Bytes, text}

-- `tlv::Name` and `tlv::Content` of the NDN packet format.
abbrev pub tlv_name : ℕ
tlv_name = 7

abbrev pub tlv_content : ℕ
tlv_content = 21

abbrev pub tlv_encrypted_aes_key : ℕ
tlv_encrypted_aes_key = 601

abbrev pub tlv_encrypted_content : ℕ
tlv_encrypted_content = 602

abbrev pub tlv_plain_text_size : ℕ
tlv_plain_text_size = 603

abbrev pub tlv_aes_key_id : ℕ
tlv_aes_key_id = 604

abbrev pub tlv_initial_vector : ℕ
tlv_initial_vector = 605

abbrev pub tlv_attribute : ℕ
tlv_attribute = 606

abbrev pub public_params : Bytes
public_params = text "PUBPARAMS"

abbrev pub decrypt_key : Bytes
decrypt_key = text "DKEY"

abbrev pub encrypt_by : Bytes
encrypt_by = text "ENC-BY"

abbrev pub content_key : Bytes
content_key = text "CK"

abbrev pub set_policy : Bytes
set_policy = text "SET_POLICY"

abbrev pub abe_type_cp_abe : Bytes
abe_type_cp_abe = text "CP-ABE"

abbrev pub abe_type_kp_abe : Bytes
abe_type_kp_abe = text "KP-ABE"
