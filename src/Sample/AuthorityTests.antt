-- ===== src/Sample/AuthorityTests.antt =====
-- The theorems on the authority, and on the way of its keys, at concrete inputs.
use nac_abe.Common.{◌↔◌, text, ◌≡◌, refl, List, [], ◌∷◌, none, inl, concat_map, Member}
use nac_abe.Common.Result.{Result, ok, err}
use nac_abe.Common.Map.{find, insert}
use nac_abe.Constants.{abe_type_cp_abe, abe_type_kp_abe}
use nac_abe.Packets.{Interest, Data, interest}
use nac_abe.Security.{valid}
use nac_abe.TrustConfig.{nack_reply, find_certificate_from_local}
use nac_abe.ParamFetcher.{fetch_public_params, on_answer, data_answer}
use nac_abe.Algo.Keys.{PrivateKey, key_to_buffer}
use nac_abe.Algo.Context.{prv_key_gen}
use nac_abe.Algo.Support.{policy_string, join_bars, pop_back, cp_prv_key_gen}
use nac_abe.NdnCrypto.{
  CryptoDraw, encrypt_data_content_with_ck, decrypt_data_content_tpm, generate_key, generate_iv,
  aes_encrypt, rsa_encrypt, sealed_block,
}
use nac_abe.NdnCrypto.RoundTrip.{decrypt_data_content_tpm-encrypt}
use nac_abe.Consumer.Consume.{key_interest, on_private_key}
use nac_abe.AttributeAuthority.State.{
  IssueDraw, CpAttributeAuthority, KpAttributeAuthority, add_new_policy, cp_get_private_key,
  kp_get_private_key, on_public_params_request,
}
use nac_abe.AttributeAuthority.Request.{
  on_token_request, on_decryption_key_request, answer_with_key, generate_decryption_key_segments,
}
use nac_abe.AttributeAuthority.Params.{on_answer-on_public_params_request}
use nac_abe.AttributeAuthority.Issue.{Issued, key_object, on_token_request-Issued}
use nac_abe.AttributeAuthority.Deliver.{
  on_private_key-Issued, on_token_request_stored, renewed_policy_ignored,
}
use nac_abe.Sample.Codec.{frames, frame, body, unframes, read}
use nac_abe.Sample.Names.{NameParts, toy_ndn}
use nac_abe.Sample.Certificates.{Certificate, named, toy_security}
use nac_abe.Sample.Abe.{toy_abe, key_of}
use nac_abe.Sample.Keys.{toy_crypto, locked}
use nac_abe.Sample.TrustTests.{fetcher, authority}
use nac_abe.Sample.ConsumerTests.{idle}

abbrev pub crypto_draw : CryptoDraw
crypto_draw = record { aes_key_seed = 1; iv_seed = 2; rsa_seed = 3 }

abbrev sealed : toy_ndn.Block
sealed =
    sealed_block (locked (1 ∷ 16 ∷ []) (5 ∷ 6 ∷ [])) (locked (9 ∷ []) (1 ∷ 16 ∷ [])) (2 ∷ 16 ∷ [])

abbrev holder : Certificate
holder = record { identity = (8, text "h") ∷ []; public_key = 9 ∷ [] }

decrypt_data_content_tpm-encrypt_example :
    decrypt_data_content_tpm sealed (9 ∷ []) (toy_security.cert_name holder) ≡ ok (5 ∷ 6 ∷ [])
unfolding encrypt_data_content_with_ck generate_key generate_iv aes_encrypt rsa_encrypt frames frame
    body
decrypt_data_content_tpm-encrypt_example =
    decrypt_data_content_tpm-encrypt (5 ∷ 6 ∷ []) (9 ∷ []) holder (9 ∷ []) crypto_draw sealed refl
      refl refl

-- An authority that knows the consumer, and has given it an attribute.
abbrev of_consumer : NameParts
of_consumer = (8, text "consumer") ∷ []

abbrev cp_authority : CpAttributeAuthority
cp_authority = record {
  m_cert = named (text "aa");
  m_trust_config = record {
    m_known_keys = (toy_security.key_name (named (text "consumer")), named (text "consumer")) ∷ [];
  };
  m_max_segment_size = 1500;
  m_segment_map = [];
  m_abe_type = abe_type_cp_abe;
  m_pub_params = record { m_pub = 1 ∷ [] };
  m_master_key = record { m_msk = 1 ∷ [] };
  m_tokens = (of_consumer, text "a" ∷ []) ∷ [];
}

abbrev kp_authority : KpAttributeAuthority
kp_authority = record {
  m_cert = named (text "aa");
  m_trust_config = cp_authority.m_trust_config;
  m_max_segment_size = 1500;
  m_segment_map = [];
  m_abe_type = abe_type_kp_abe;
  m_pub_params = record { m_pub = 1 ∷ [] };
  m_master_key = record { m_msk = 1 ∷ [] };
  m_tokens = (of_consumer, text "a") ∷ [];
}

abbrev params_interest : Interest
params_interest = record fetcher.m_interest_template {
  name = (8, text "aa") ∷ (8, text "PUBPARAMS") ∷ [];
}

on_answer-on_public_params_request_example :
    on_answer
      (data_answer (on_public_params_request cp_authority params_interest 7) valid)
      (record fetcher { m_retry_count = 1 })
    ≡ (
      ok none,
      record fetcher {
        m_retry_count = 0;
        m_abe_type = abe_type_cp_abe;
        m_pub_params_cache = record { m_pub = 1 ∷ [] };
      },
    )
unfolding fetch_public_params
on_answer-on_public_params_request_example =
    on_answer-on_public_params_request cp_authority fetcher (record fetcher { m_retry_count = 1 })
      params_interest 7 refl refl refl

abbrev pub draw : IssueDraw
draw = record { key_seed = 4; crypto_draw = crypto_draw; time = 9 }

abbrev pub request : Interest
request = key_interest authority (toy_security.key_name (named (text "consumer")))

abbrev object : NameParts
object = key_object cp_get_private_key cp_authority (named (text "consumer")) draw

abbrev run : Result (List Data) × CpAttributeAuthority
run = on_token_request cp_get_private_key request nack_reply draw cp_authority

abbrev put_packets : List Data
put_packets = elim run.0 [ ok ds ↦ ds | err e ↦ [] ]

-- the answer, in its parts
abbrev issued_key : PrivateKey
issued_key = record { m_prv = key_of (1 ∷ []) (text "a") }

abbrev issued_block : toy_ndn.Block
issued_block =
    sealed_block (locked (1 ∷ 16 ∷ []) (key_to_buffer issued_key))
      (locked (text "consumer") (1 ∷ 16 ∷ [])) (2 ∷ 16 ∷ [])

abbrev issued_segments : List Data
issued_segments = toy_security.segment (toy_ndn.wire issued_block) object 1500 4000 0

on_token_request-Issued_example :
    (put : List Data) × (a' : CpAttributeAuthority) × (on_token_request cp_get_private_key request
        nack_reply draw cp_authority
      ≡ (ok put, a'))
    × Issued cp_get_private_key cp_authority a' object (named (text "consumer")) draw put
unfolding find find_certificate_from_local frames frame body cp_get_private_key cp_prv_key_gen
    prv_key_gen policy_string join_bars pop_back key_of key_to_buffer encrypt_data_content_with_ck
    generate_key generate_iv aes_encrypt rsa_encrypt
on_token_request-Issued_example =
    on_token_request-Issued cp_get_private_key cp_authority (named (text "consumer"))
      (text "a" ∷ []) nack_reply draw issued_key issued_block refl refl refl refl refl

unfoldable issue :
    Issued cp_get_private_key cp_authority run.1 object (named (text "consumer")) draw put_packets
unfolding find find_certificate_from_local frames frame body unframes read on_token_request
    on_decryption_key_request answer_with_key generate_decryption_key_segments cp_get_private_key
    cp_prv_key_gen prv_key_gen policy_string join_bars pop_back key_of key_to_buffer
    encrypt_data_content_with_ck generate_key generate_iv aes_encrypt rsa_encrypt insert
issue = record {
  key = issued_key;
  block = issued_block;
  segments = issued_segments;
  issued = refl;
  sealed = refl;
  stored = refl;
  answered = refl;
  names = ((0, refl), ((1, refl), tt));
  octets = refl;
}

on_private_key-Issued_example :
    on_private_key (text "consumer") (concat_map (λ d. d.content) issue.segments) idle
    ≡ (ok tt, record idle { m_key_cache = issue.key })
unfolding issue key_of frames frame body
on_private_key-Issued_example =
    on_private_key-Issued cp_get_private_key cp_authority run.1 object draw put_packets
      (text "consumer") (text "consumer") idle issue refl refl refl

abbrev first_segment : Data
first_segment = record {
  name = (toy_ndn.append object (toy_ndn.segment 0));
  content = toy_ndn.wire issued_block;
  freshness = 4000;
  content_type = 0;
}

on_token_request_stored_example :
    (ds : List Data) × (on_token_request cp_get_private_key
        (interest first_segment.name)
        nack_reply
        draw
        run.1
      ≡ (ok ds, run.1))
    × ((e : Data) → Member e ds ↔ (Member e issue.segments × (first_segment.name ≡ e.name)))
unfolding issue find find_certificate_from_local frames frame body unframes read on_token_request
    on_decryption_key_request answer_with_key generate_decryption_key_segments cp_get_private_key
    cp_prv_key_gen prv_key_gen policy_string join_bars pop_back key_of key_to_buffer
    encrypt_data_content_with_ck generate_key generate_iv aes_encrypt rsa_encrypt insert
on_token_request_stored_example =
    on_token_request_stored cp_get_private_key cp_authority run.1 (named (text "consumer"))
      (text "a" ∷ []) nack_reply draw draw put_packets first_segment issue refl refl (inl refl)

renewed_policy_ignored_example :
    (cp_get_private_key (add_new_policy of_consumer (text "b" ∷ []) cp_authority) of_consumer 4
      ≡ cp_get_private_key cp_authority of_consumer 4)
    × (kp_get_private_key (add_new_policy of_consumer (text "b") kp_authority) of_consumer 4
        ≡ kp_get_private_key kp_authority of_consumer 4)
unfolding find frames frame body
renewed_policy_ignored_example =
    renewed_policy_ignored cp_authority kp_authority of_consumer (text "b" ∷ []) (text "b") 4 refl
      refl
