-- ===== src/Algo/Content.antt =====
-- algo/content-key and algo/cipher-text: the content key, an encrypted object, and their TLV forms.
use nac_abe.Common.{ℕ, Bytes, []}
use nac_abe.Constants.{
  tlv_content, tlv_encrypted_aes_key, tlv_encrypted_content, tlv_plain_text_size,
}
use nac_abe.Ndn.{Ndn}

pub record ContentKey : Type 0 where
  pub m_aes_key : Bytes
  pub m_enc_aes_key : Bytes

abbrev pub empty_content_key : ContentKey
empty_content_key = record { m_aes_key = []; m_enc_aes_key = [] }

-- `m_plain_text_size` is a `uint32_t`. The content key is a shared pointer in the source: it is set
-- once, and no one reads it back after it has been handed on.
pub record CipherText : Type 0 where
  pub m_content_key : ContentKey
  pub m_content : Bytes
  pub m_plain_text_size : ℕ

module _ ⦃ndn : Ndn⦄ where
  open ndn use {Block, make_empty_block, make_binary_block, make_integer_block, push_back}

  unfoldable pub make_ck_content : ContentKey → Block
  make_ck_content k =
      push_back (make_empty_block tlv_content)
        (make_binary_block tlv_encrypted_aes_key k.m_enc_aes_key)

  unfoldable pub make_data_content : CipherText → Block
  make_data_content c =
      push_back
        (push_back (make_empty_block tlv_content)
          (make_binary_block tlv_encrypted_content c.m_content))
        (make_integer_block tlv_plain_text_size c.m_plain_text_size)
