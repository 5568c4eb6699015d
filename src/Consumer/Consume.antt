-- ===== src/Consumer/Consume.antt =====
-- consumer.cpp: the constructor, the decryption key, the overloads of `consume`, and the retries.
use nac_abe.Common.{
  ℕ, ◌+◌, ◌-◌, ◌*◌, ◌^◌, Bytes, text, Bool, true, false, Option, none, some, [], ◌++◌, bytes_beq,
  if◌then◌else◌, ltb, not,
}
use nac_abe.Common.Result.{Result, ok, err, tlv_error, invalid_argument, or_throw}
use nac_abe.Common.Exec.{Exec, pure, modify, lift, ◌>>=◌, ◌>>◌}
use nac_abe.Constants.{decrypt_key}
use nac_abe.Ndn.{Ndn}
use nac_abe.Packets.{Interest, interest}
use nac_abe.Security.{Security}
use nac_abe.OpenAbe.{OpenAbe}
use nac_abe.Algo.Keys.{no_key, key_from_buffer}
use nac_abe.Algo.Decrypt.{AbeSupport}
use nac_abe.TrustConfig.{empty_trust, add_or_update_certificate}
use nac_abe.ParamFetcher.{new_param_fetcher, fetch_public_params}
use nac_abe.NdnCrypto.{Crypto, decrypt_data_content_tpm}
use nac_abe.Consumer.State.{on_error, fetch_data, fetch_private_key, Consumer, emit}
use nac_abe.Consumer.Fetch.{decrypt_content}

-- `static_cast<int>(std::pow(2, maxRetries + 1 - nRetrials))`; a power below one is cut to 0.
unfoldable pub retry_factor : ℕ → ℕ → ℕ
retry_factor max_retries n_retrials =
    if ltb (max_retries + 1) n_retrials then 0 else 2 ^ (max_retries + 1 - n_retrials)

abbrev pub not_ready : Bytes
not_ready = text "Public params or private decryption key doesn't exist"

module _ ⦃ndn : Ndn⦄ ⦃sec : Security⦄ where
  open ndn use {Name, append, generic, wire_encode}

  -- The constructor, with the Interest for the public parameters that it sends; `support` is the
  -- singleton as it stands.
  unfoldable pub new_consumer :
      AbeSupport → sec.Certificate → sec.Certificate → Interest → Result (Consumer × Interest)
  new_consumer support cert authority template =
      let (r, fetcher) =
        fetch_public_params (new_param_fetcher (sec.identity authority) template) in
      elim r [
        | err e ↦ err e
        | ok i ↦ ok (
          record {
            m_cert = cert;
            m_attr_authority_prefix = sec.identity authority;
            m_trust_config = add_or_update_certificate authority empty_trust;
            m_key_cache = no_key;
            m_ck_interests_sent = [];
            m_pending_callbacks = [];
            m_ck_enc_aes_cache = [];
            m_max_retries = 3;
            m_default_timeout = 200;
            m_param_fetcher = fetcher;
            abe_support = support;
            events = [];
          },
          i,
        )
      ]

  -- /<attribute authority prefix>/DKEY/<decryptor name block>
  abbrev pub key_interest : Name → Name → Interest
  key_interest prefix key_name =
      record (interest
        (append (append prefix (generic decrypt_key)) (generic (wire_encode key_name)))) {
          must_be_fresh = true;
          can_be_prefix = true;
        }

  unfoldable pub obtain_decryption_key : Exec Consumer (Unit {0})
  obtain_decryption_key c =
      (do
        key_name ←
            lift (or_throw invalid_argument (sec.key_name_from_cert_name (sec.cert_name c.m_cert)))
        emit (fetch_private_key (key_interest c.m_attr_authority_prefix key_name)))
        c

  unfoldable pub ready_for_decryption : Consumer → Bool
  ready_for_decryption c =
      if bytes_beq c.m_param_fetcher.m_pub_params_cache.m_pub []
      then false
      else not (bytes_beq c.m_key_cache.m_prv [])

  unfoldable pub set_max_retries : ℕ → Consumer → Consumer
  set_max_retries n c = record c { m_max_retries = n }

  unfoldable pub set_default_timeout : ℕ → Consumer → Consumer
  set_default_timeout n c = record c { m_default_timeout = n }

  -- `consume` with an Interest: the callbacks are a number.
  unfoldable pub consume_interest : Interest → ℕ → Exec Consumer (Unit {0})
  consume_interest i callbacks c =
      if ready_for_decryption c
      then emit (fetch_data i) c
      else emit (on_error callbacks not_ready) c

  -- `consume` with a name
  unfoldable pub consume_name : Name → ℕ → Exec Consumer (Unit {0})
  consume_name n callbacks c =
      consume_interest
        (record (interest n) { can_be_prefix = true; lifetime = some c.m_default_timeout })
        callbacks c

  -- The fetch of the data has failed.
  unfoldable pub on_data_error : Bytes → ℕ → Exec Consumer (Unit {0})
  on_data_error message callbacks =
      emit (on_error callbacks (text "Data fetch failed: " ++ message))

  unfoldable pub handle_nack : Bytes → Bytes → ℕ → Exec Consumer (Unit {0})
  handle_nack message reason callbacks = emit (on_error callbacks (message ++ reason))

  -- A retry waits twice as long as the one before. Where no retries are left, the callback is
  -- called. `int` is taken not to overflow.
  unfoldable pub handle_timeout : Interest → ℕ → Bytes → ℕ → Exec Consumer (Option (Interest × ℕ))
  handle_timeout i n_retrials timeout_message callbacks c =
      if ltb 0 n_retrials
      then pure
          (some (
            record i {
              can_be_prefix = true;
              lifetime = some (c.m_default_timeout * retry_factor c.m_max_retries n_retrials);
            },
            n_retrials - 1,
          ))
          c
      else (do emit (on_error callbacks timeout_message); pure none) c

module _ ⦃ndn : Ndn⦄ ⦃sec : Security⦄ ⦃crypto : Crypto⦄ where
  open ndn use {from_wire}

  -- The fetch of the decryption key has ended with these octets.
  unfoldable pub on_private_key : crypto.Tpm → Bytes → Exec Consumer (Unit {0})
  on_private_key tpm buffer c =
      (do
        b ← lift (or_throw tlv_error (from_wire buffer))
        prv_block ← lift (decrypt_data_content_tpm b tpm (sec.cert_name c.m_cert))
        prv ← lift (key_from_buffer prv_block)
        modify (λ d. record d { m_key_cache = prv }))
        c

module _ ⦃ndn : Ndn⦄ ⦃sec : Security⦄ ⦃abe : OpenAbe⦄ where
  open ndn use {Block, from_wire}

  -- `consume` with a block at hand
  unfoldable pub consume_block : Block → ℕ → Exec Consumer (Unit {0})
  consume_block b callbacks c =
      if ready_for_decryption c
      then decrypt_content b callbacks c
      else emit (on_error callbacks not_ready) c

  -- The fetch of the data has ended with these octets.
  unfoldable pub on_data_complete : Bytes → ℕ → Exec Consumer (Unit {0})
  on_data_complete buffer callbacks = do
    b ← lift (or_throw tlv_error (from_wire buffer))
    decrypt_content b callbacks
