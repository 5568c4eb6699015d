-- ===== src/Consumer/Fetch.antt =====
-- consumer.cpp: `decryptContent`, the completion of a content key fetch, and `onCkeyData`.
use nac_abe.Common.{
  ℕ, Bytes, text, true, Option, none, some, List, [], ◌∷◌, ◌++◌, bytes_beq, if◌then◌else◌, is_some,
}
use nac_abe.Common.Map.{find, put, insert, erase}
use nac_abe.Common.Result.{Result, ok, err, undefined, tlv_error, or_throw, what}
use nac_abe.Common.Exec.{Exec, pure, modify, throw, lift, ◌>>=◌, ◌>>◌}
use nac_abe.Constants.{
  tlv_name, tlv_encrypted_aes_key, tlv_encrypted_content, tlv_plain_text_size, abe_type_cp_abe,
  abe_type_kp_abe,
}
use nac_abe.Ndn.{Ndn, name_eq, get_block}
use nac_abe.Packets.{Interest, interest}
use nac_abe.Security.{Security}
use nac_abe.OpenAbe.{OpenAbe}
use nac_abe.Algo.Content.{CipherText, empty_content_key}
use nac_abe.Algo.Context.{to_u32}
use nac_abe.Algo.Decrypt.{AbeSupport, cp_decrypt, kp_decrypt}
use nac_abe.Consumer.State.{PendingTask, on_success, on_error, fetch_ck, Consumer, emit}

module _ ⦃ndn : Ndn⦄ ⦃sec : Security⦄ ⦃abe : OpenAbe⦄ where
  open ndn use {
    Name, Block, at_back, is_segment, drop_last, value, read_integer, block_name, elements,
    from_wire,
  }

  unfoldable pub normalize_ck_key : Name → Name
  normalize_ck_key n = elim (at_back n 0) [
    | none ↦ n
    | some c ↦ if is_segment c then drop_last n else n
  ]

  -- The decryption of the type that the parameters have; `none` for another type.
  abbrev pub decryption : Bytes → Consumer → CipherText → Option (Result Bytes × AbeSupport)
  decryption abe_type c cipher =
      if bytes_beq abe_type abe_type_cp_abe
      then some (cp_decrypt c.m_param_fetcher.m_pub_params_cache c.m_key_cache cipher c.abe_support)
      else if bytes_beq abe_type abe_type_kp_abe
      then some (kp_decrypt c.m_param_fetcher.m_pub_params_cache c.m_key_cache cipher c.abe_support)
      else none

  -- The `try` block: the plaintext, or what was thrown, goes to the task's callbacks. What is
  -- undefined is not caught.
  unfoldable pub report : ℕ → Result Bytes → Exec Consumer (Unit {0})
  report callbacks (ok plain) = emit (on_success callbacks plain)
  report callbacks (err undefined) = throw undefined
  report callbacks (err e) = emit (on_error callbacks (what e))

  unfoldable pub try_decrypt : CipherText → ℕ → Exec Consumer (Unit {0})
  try_decrypt cipher callbacks c = elim (decryption c.m_param_fetcher.m_abe_type c cipher) [
    | none ↦ emit (on_error callbacks (text "Unsupported ABE type")) c
    | some (r, support) ↦ report callbacks r (record c { abe_support = support })
  ]

  -- The encrypted content key of a content key block.
  unfoldable pub encrypted_aes_key : Block → Option Bytes
  encrypted_aes_key b = elim (get_block b tlv_encrypted_aes_key) [
    | none ↦ none
    | some e ↦ some (value e)
  ]

  unfoldable pub on_ckey_data : Block → CipherText → ℕ → Exec Consumer (Unit {0})
  on_ckey_data content cipher callbacks = do
    key ← lift (or_throw tlv_error (encrypted_aes_key content))
    try_decrypt (record cipher { m_content_key = record empty_content_key { m_enc_aes_key = key } })
        callbacks

  abbrev pub waiting : Name → Consumer → List PendingTask
  waiting n c = elim (find n c.m_pending_callbacks) [ none ↦ [] | some ts ↦ ts ]

  abbrev push_pending : Name → PendingTask → Exec Consumer (Unit {0})
  push_pending n t =
      modify (λ c. record c {
        m_pending_callbacks = put n (waiting n c ++ t ∷ []) c.m_pending_callbacks;
      })

  abbrev pub ck_interest : Name → Consumer → Interest
  ck_interest n c = record (interest n) {
    can_be_prefix = true;
    lifetime = some c.m_default_timeout;
  }

  -- What is read of the data's block before a content key is sought.
  unfoldable pub read_content : Block → Result (CipherText × Name)
  read_content content = elim (get_block content tlv_encrypted_content) [
    | none ↦ err tlv_error
    | some e ↦ elim (get_block content tlv_plain_text_size) [
      | none ↦ err tlv_error
      | some s ↦ elim (read_integer s) [
        | none ↦ err tlv_error
        | some size ↦ elim (get_block content tlv_name) [
          | none ↦ err tlv_error
          | some n ↦ elim (block_name n) [
            | none ↦ err tlv_error
            | some name ↦ ok (
              record {
                m_content_key = empty_content_key;
                m_content = value e;
                m_plain_text_size = to_u32 size;
              },
              name,
            )
          ]
        ]
      ]
    ]
  ]

  -- 1) from the cache, 2) behind a fetch that is under way, 3) with a fetch of its own
  unfoldable pub seek_key : CipherText → Name → ℕ → Exec Consumer (Unit {0})
  seek_key cipher ck_key callbacks c = elim (find ck_key c.m_ck_enc_aes_cache) [
    | some key ↦
        try_decrypt
          (record cipher { m_content_key = record empty_content_key { m_enc_aes_key = key } })
          callbacks c
    | none ↦
        if is_some (find ck_key c.m_ck_interests_sent)
        then push_pending ck_key (record { cipher = cipher; callbacks = callbacks }) c
        else (do
          modify (λ c. record c { m_ck_interests_sent = insert ck_key tt c.m_ck_interests_sent })
          push_pending ck_key (record { cipher = cipher; callbacks = callbacks })
          emit (fetch_ck (ck_interest ck_key c)))
            c
  ]

  unfoldable pub decrypt_content : Block → ℕ → Exec Consumer (Unit {0})
  decrypt_content content callbacks = do
    r ← lift (read_content content)
    seek_key r.0 (normalize_ck_key r.1) callbacks

  -- The loop over the waiters: a throw leaves it.
  unfoldable pub fan_out : Block → List PendingTask → Exec Consumer (Unit {0})
  fan_out ck_block [] = pure tt
  fan_out ck_block (t ∷ rest) = do on_ckey_data ck_block t.cipher t.callbacks; fan_out ck_block rest

  abbrev pub fill_cache : Name → Block → Consumer → Consumer
  fill_cache n b c = elim (encrypted_aes_key b) [
    | none ↦ c
    | some key ↦ record c { m_ck_enc_aes_cache = put n key c.m_ck_enc_aes_cache }
  ]

  abbrev forget : Name → Consumer → Consumer
  forget n c = record c {
    m_ck_interests_sent = erase n c.m_ck_interests_sent;
    m_pending_callbacks = erase n c.m_pending_callbacks;
  }

  -- The fetch of a content key has ended with these octets.
  unfoldable pub on_ck_complete : Name → Bytes → Exec Consumer (Unit {0})
  on_ck_complete ck_key buffer c =
      (do
        ck_block ← lift (or_throw tlv_error (from_wire buffer))
        modify (fill_cache ck_key ck_block)
        fan_out ck_block (waiting ck_key c)
        modify (forget ck_key))
        c

  unfoldable pub broadcast : Bytes → List PendingTask → Exec Consumer (Unit {0})
  broadcast message [] = pure tt
  broadcast message (t ∷ rest) = do emit (on_error t.callbacks message); broadcast message rest

  -- The fetch of a content key has failed.
  unfoldable pub on_ck_error : Name → Bytes → Exec Consumer (Unit {0})
  on_ck_error ck_key message c = (do broadcast message (waiting ck_key c); modify (forget ck_key)) c
