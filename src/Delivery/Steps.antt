-- ===== src/Delivery/Steps.antt =====
-- consumer.cpp: what a consumer makes of the blocks that a producer makes.
use nac_abe.Common.{ℕ, Bytes, ◌≡◌, ◌∙◌, false, none, some, List, [], ◌∷◌, ◌++◌, arith}
use nac_abe.Common.Map.{find, put, erase, insert}
use nac_abe.Common.Result.{ok}
use nac_abe.Constants.{
  tlv_content, tlv_name, tlv_encrypted_aes_key, tlv_encrypted_content, tlv_plain_text_size,
}
use nac_abe.Ndn.{Ndn, name_eq, get_block, first_of_type}
use nac_abe.Security.{Security}
use nac_abe.OpenAbe.{OpenAbe}
use nac_abe.Algo.Content.{
  ContentKey, CipherText, empty_content_key, make_ck_content, make_data_content,
}
use nac_abe.Algo.Context.{to_u32}
use nac_abe.Algo.Decrypt.{AbeSupport}
use nac_abe.Producer.Produce.{data_block}
use nac_abe.Consumer.State.{PendingTask, on_success, fetch_ck, Consumer}
use nac_abe.Consumer.Fetch.{
  normalize_ck_key, decryption, report, try_decrypt, encrypted_aes_key, on_ckey_data, waiting,
  ck_interest, read_content, seek_key, decrypt_content, fan_out, on_ck_complete,
}
use nac_abe.Consumer.Consume.{on_data_complete}
use nac_abe.Consumer.Flights.{in_flight}

module _ ⦃ndn : Ndn⦄ ⦃sec : Security⦄ ⦃abe : OpenAbe⦄ where
  open ndn use {Name, Block, Component, elements, wire}

  data_elements :
      (cipher : CipherText) (n : Name)
      → elements (data_block cipher n)
        ≡ some (
            ndn.make_binary_block tlv_encrypted_content cipher.m_content
            ∷ ndn.make_integer_block tlv_plain_text_size cipher.m_plain_text_size
            ∷ ndn.name_block n
            ∷ [])
  unfolding make_data_content
  data_elements cipher n =
      ndn.elements-push_back _ _ _ (
        ndn.elements-push_back _ _ _
          (ndn.elements-push_back _ _ _ (ndn.elements-empty tlv_content)))

  abbrev pub keyless : CipherText → CipherText
  keyless cipher = record {
    m_content_key = empty_content_key;
    m_content = cipher.m_content;
    m_plain_text_size = to_u32 cipher.m_plain_text_size;
  }

  field_lem :
      (b : Block) (t : ℕ) (es : List Block)
      → elements b ≡ some es
      → get_block b t ≡ first_of_type ndn.type_of t es
  field_lem b t es e = rw (get_block, e)

  data_fields :
      (cipher : CipherText) (n : Name)
      → (get_block (data_block cipher n) tlv_encrypted_content
          ≡ some (ndn.make_binary_block tlv_encrypted_content cipher.m_content))
        × (get_block (data_block cipher n) tlv_plain_text_size
            ≡ some (ndn.make_integer_block tlv_plain_text_size cipher.m_plain_text_size))
        × (get_block (data_block cipher n) tlv_name ≡ some (ndn.name_block n))
  data_fields cipher n = (
    field_lem _ tlv_encrypted_content _ (data_elements cipher n)
        ∙ rw (ndn.type_of-binary tlv_encrypted_content cipher.m_content),
    field_lem _ tlv_plain_text_size _ (data_elements cipher n)
        ∙ rw (
          ndn.type_of-binary tlv_encrypted_content cipher.m_content,
          ndn.type_of-integer tlv_plain_text_size cipher.m_plain_text_size,
        ),
    field_lem _ tlv_name _ (data_elements cipher n)
        ∙ rw (
          ndn.type_of-binary tlv_encrypted_content cipher.m_content,
          ndn.type_of-integer tlv_plain_text_size cipher.m_plain_text_size,
          ndn.type_of-name n,
        ),
  )

  -- What the producer has put into a data block is what the consumer reads.
  read_content-data_block :
      (cipher : CipherText) (n : Name) → read_content (data_block cipher n) ≡ ok (keyless cipher, n)
  unfolding read_content
  read_content-data_block cipher n = ground (
    arith,
    data_fields cipher n,
    ndn.value-binary tlv_encrypted_content cipher.m_content,
    ndn.read_integer-integer tlv_plain_text_size cipher.m_plain_text_size,
    ndn.block_name-name n,
  )

  ck_field :
      (key : ContentKey)
      → get_block (make_ck_content key) tlv_encrypted_aes_key
        ≡ some (ndn.make_binary_block tlv_encrypted_aes_key key.m_enc_aes_key)
  unfolding make_ck_content
  ck_field key =
      field_lem _ tlv_encrypted_aes_key _ (
        ndn.elements-push_back (ndn.make_empty_block tlv_content)
          (ndn.make_binary_block tlv_encrypted_aes_key key.m_enc_aes_key) []
          (ndn.elements-empty tlv_content))
      ∙ rw (ndn.type_of-binary tlv_encrypted_aes_key key.m_enc_aes_key)

  encrypted_aes_key-make_ck_content :
      (key : ContentKey) → encrypted_aes_key (make_ck_content key) ≡ some key.m_enc_aes_key
  unfolding encrypted_aes_key
  encrypted_aes_key-make_ck_content key =
      ground (arith, ck_field key, ndn.value-binary tlv_encrypted_aes_key key.m_enc_aes_key)

  normalize_kept :
      (n : Name) (c : Component)
      → ndn.at_back n 0 ≡ some c
      → ndn.is_segment c ≡ false
      → normalize_ck_key n ≡ n
  unfolding normalize_ck_key
  normalize_kept n c e f = ground arith

  -- The consumer after it has started to fetch the key.
  abbrev pub asking : Name → PendingTask → Consumer → Consumer
  asking n task c = record c {
    m_ck_interests_sent = insert n tt c.m_ck_interests_sent;
    m_pending_callbacks = put n (task ∷ []) c.m_pending_callbacks;
    events = c.events ++ fetch_ck (ck_interest n c) ∷ [];
  }

  -- The data alone: a fetch of the key that the producer named is started.
  pub data_lem :
      (cipher : CipherText) (n : Name) (last : Component) (t : ℕ) (c : Consumer)
      → ndn.at_back n 0 ≡ some last
      → ndn.is_segment last ≡ false
      → find n c.m_ck_enc_aes_cache ≡ none
      → in_flight n c ≡ false
      → waiting n c ≡ []
      → on_data_complete (wire (data_block cipher n)) t c
        ≡ (ok tt, asking n (record { cipher = keyless cipher; callbacks = t }) c)
  unfolding on_data_complete decrypt_content seek_key
  data_lem cipher n last t c e f none_cached none_sent none_waits = ground (
    arith,
    ndn.from_wire-wire (data_block cipher n),
    read_content-data_block cipher n,
    normalize_kept n last e f,
  )

  abbrev pub with_enc : CipherText → Bytes → CipherText
  with_enc cipher key = record cipher {
    m_content_key = record empty_content_key { m_enc_aes_key = key };
  }

  tried :
      (cipher : CipherText) (t : ℕ) (plain : Bytes) (c : Consumer) (support : AbeSupport)
      → decryption c.m_param_fetcher.m_abe_type c cipher ≡ some (ok plain, support)
      → try_decrypt cipher t c
        ≡ (ok tt, record c { abe_support = support; events = c.events ++ on_success t plain ∷ [] })
  unfolding try_decrypt report
  tried cipher t plain c support d = rw (d, try_decrypt)

  served :
      (key : ContentKey) (cipher : CipherText) (t : ℕ) (plain : Bytes) (c : Consumer)
      (support : AbeSupport)
      → decryption c.m_param_fetcher.m_abe_type c (with_enc cipher key.m_enc_aes_key)
        ≡ some (ok plain, support)
      → fan_out (make_ck_content key) (record { cipher = cipher; callbacks = t } ∷ []) c
        ≡ (ok tt, record c { abe_support = support; events = c.events ++ on_success t plain ∷ [] })
  unfolding fan_out on_ckey_data
  served key cipher t plain c support d = ground (
    arith,
    encrypted_aes_key-make_ck_content key,
    tried (with_enc cipher key.m_enc_aes_key) t plain c support d,
  )

  abbrev pub served_state : Name → Bytes → Bytes → ℕ → AbeSupport → Consumer → Consumer
  served_state n enc plain t support c = record c {
    m_ck_interests_sent = erase n c.m_ck_interests_sent;
    m_pending_callbacks = erase n c.m_pending_callbacks;
    m_ck_enc_aes_cache = put n enc c.m_ck_enc_aes_cache;
    abe_support = support;
    events = c.events ++ on_success t plain ∷ [];
  }

  -- The key's block: the one waiter has its object decrypted.
  pub key_lem :
      (key : ContentKey) (cipher : CipherText) (n : Name) (t : ℕ) (plain : Bytes) (c : Consumer)
      (support : AbeSupport)
      → waiting n c ≡ record { cipher = cipher; callbacks = t } ∷ []
      → decryption c.m_param_fetcher.m_abe_type c (with_enc cipher key.m_enc_aes_key)
        ≡ some (ok plain, support)
      → on_ck_complete n (wire (make_ck_content key)) c
        ≡ (ok tt, served_state n key.m_enc_aes_key plain t support c)
  unfolding on_ck_complete
  key_lem key cipher n t plain c support w d = ground (
    arith,
    ndn.from_wire-wire (make_ck_content key),
    encrypted_aes_key-make_ck_content key,
    served key cipher t plain
        (record c { m_ck_enc_aes_cache = put n key.m_enc_aes_key c.m_ck_enc_aes_cache }) support d,
  )
