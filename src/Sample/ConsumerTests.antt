-- ===== src/Sample/ConsumerTests.antt =====
-- The theorems on a consumer's fetches at concrete inputs.
use nac_abe.Common.{◌⊎◌, ◌+◌, ◌≤◌, Bytes, text, ◌≡◌, inl, refl, [], ◌∷◌}
use nac_abe.Common.Map.{find}
use nac_abe.Common.Result.{ok, err, tlv_error, undefined}
use nac_abe.Constants.{abe_type_cp_abe}
use nac_abe.Ndn.{name_eq}
use nac_abe.TrustConfig.{empty_trust}
use nac_abe.Algo.Content.{CipherText, empty_content_key, make_ck_content}
use nac_abe.Algo.Decrypt.{fresh_support}
use nac_abe.Producer.Produce.{data_block}
use nac_abe.Consumer.State.{Consumer, on_error}
use nac_abe.Consumer.Fetch.{decrypt_content, on_ck_complete, encrypted_aes_key}
use nac_abe.Consumer.Flights.{Landed, on_ck_complete-Landed, on_ck_complete_malformed}
use nac_abe.Consumer.Ledger.{IsPaired, fetches, flying}
use nac_abe.Consumer.Fetch.{on_ck_error}
use nac_abe.Consumer.Runs.{landed, on_ck_error_lem}
use nac_abe.Consumer.Reach.{Run, start, decrypts, fails, Run-IsPaired, Run-fetches}
use nac_abe.Sample.Codec.{frames, frame, body, unframes, read}
use nac_abe.Sample.Names.{NameParts, toy_ndn}
use nac_abe.Sample.Certificates.{named, toy_security}
use nac_abe.Sample.Abe.{toy_abe}
use nac_abe.Sample.TrustTests.{fetcher, authority}
use nac_abe.Sample.AlgoTests.{prv, object}

abbrev pub key_name : NameParts
key_name = (8, text "p") ∷ (8, text "CK") ∷ (8, text "7") ∷ (54, 9 ∷ []) ∷ []

abbrev pub idle : Consumer
idle = record {
  m_cert = named (text "consumer");
  m_attr_authority_prefix = authority;
  m_trust_config = empty_trust;
  m_key_cache = prv;
  m_ck_interests_sent = [];
  m_pending_callbacks = [];
  m_ck_enc_aes_cache = [];
  m_max_retries = 3;
  m_default_timeout = 4000;
  m_param_fetcher = record fetcher {
    m_abe_type = abe_type_cp_abe;
    m_pub_params_cache = record { m_pub = 1 ∷ [] };
  };
  abe_support = fresh_support;
  events = [];
}

abbrev keyless : CipherText
keyless = record object { m_content_key = empty_content_key }

-- two objects wait for one key
abbrev waiting_consumer : Consumer
waiting_consumer = record idle {
  m_ck_interests_sent = (key_name, tt) ∷ [];
  m_pending_callbacks =
      (
        key_name,
        record { cipher = keyless; callbacks = 1 }
            ∷ record { cipher = keyless; callbacks = 2 }
            ∷ [],
      )
      ∷ [];
}

abbrev enc_key : Bytes
enc_key = 2 ∷ 3 ∷ 1 ∷ 2 ∷ 99 ∷ 1 ∷ 2 ∷ 3 ∷ 1 ∷ 0 ∷ []

abbrev key_octets : Bytes
key_octets = toy_ndn.wire (make_ck_content object.m_content_key)

on_ck_complete-Landed_example :
    (c' : Consumer) × (((on_ck_complete key_name key_octets waiting_consumer ≡ (ok tt, c'))
        × Landed key_name enc_key waiting_consumer c')
      ⊎ (on_ck_complete key_name key_octets waiting_consumer ≡ (err undefined, c')))
unfolding frames frame body unframes read encrypted_aes_key make_ck_content
on_ck_complete-Landed_example =
    on_ck_complete-Landed key_name key_octets (make_ck_content object.m_content_key) enc_key
      waiting_consumer refl refl

on_ck_complete_malformed_example :
    on_ck_complete key_name (toy_ndn.wire (630, [])) waiting_consumer
    ≡ (err tlv_error, waiting_consumer)
unfolding find frames frame body unframes read encrypted_aes_key
on_ck_complete_malformed_example =
    on_ck_complete_malformed key_name (toy_ndn.wire (630, [])) (630, [])
      (record { cipher = keyless; callbacks = 1 }) (record { cipher = keyless; callbacks = 2 } ∷ [])
      waiting_consumer refl refl refl

idle-IsPaired : IsPaired idle
unfolding find
idle-IsPaired n = inl (refl, refl)

on_ck_error_lem_example : on_ck_error key_name (text "timeout") waiting_consumer ≡ (
  ok tt,
  landed key_name (record waiting_consumer {
    events = on_error 1 (text "timeout") ∷ on_error 2 (text "timeout") ∷ [];
  }),
)
unfolding find frames
on_ck_error_lem_example = on_ck_error_lem key_name (text "timeout") waiting_consumer

-- one request that fails, and one more
abbrev pub block : toy_ndn.Block
block = data_block object key_name

abbrev asked : Consumer
asked = (decrypt_content block 1 idle).1

abbrev failed : Consumer
failed = (on_ck_error key_name (text "timeout") asked).1

run : Run key_name 1 idle (decrypt_content block 2 failed).1
unfolding frames frame body
run =
    decrypts 1 idle failed block 2
      (fails 0 idle asked key_name (text "timeout") (decrypts 0 idle idle block 1 (start idle)))

Run-IsPaired_example : IsPaired (decrypt_content block 2 failed).1
Run-IsPaired_example =
    Run-IsPaired key_name 1 idle (decrypt_content block 2 failed).1 idle-IsPaired run

Run-fetches_example :
    fetches key_name (decrypt_content block 2 failed).1.events + flying key_name idle
    ≤ fetches key_name idle.events + flying key_name (decrypt_content block 2 failed).1 + 1
Run-fetches_example = Run-fetches key_name 1 idle (decrypt_content block 2 failed).1 run
