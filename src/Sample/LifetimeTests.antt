-- ===== src/Sample/LifetimeTests.antt =====
-- The theorems on the packets that an authority puts over its life at concrete inputs.
use nac_abe.Common.{Bytes, text, ◌≡◌, refl, List, [], ◌∷◌, inl}
use nac_abe.Common.Result.{Result, ok, err}
use nac_abe.Common.Map.{find, insert, put, erase}
use nac_abe.Constants.{abe_type_cp_abe, abe_type_kp_abe}
use nac_abe.Packets.{Data, data_template}
use nac_abe.TrustConfig.{
  nack_reply, find_certificate_from_local, add_or_update_certificate, empty_trust,
}
use nac_abe.Algo.Keys.{key_to_buffer}
use nac_abe.Algo.Context.{init, prv_key_gen}
use nac_abe.Algo.Support.{
  policy_string, join_bars, pop_back, cp_init, kp_init, cp_prv_key_gen, kp_prv_key_gen,
}
use nac_abe.NdnCrypto.{
  encrypt_data_content_with_ck, generate_key, generate_iv, aes_encrypt, rsa_encrypt,
}
use nac_abe.AttributeAuthority.State.{
  AttributeAuthority, CpAttributeAuthority, KpAttributeAuthority, add_new_policy,
  add_new_policy_for, new_authority, new_cp_authority, new_kp_authority, cp_get_private_key,
  kp_get_private_key,
}
use nac_abe.AttributeAuthority.Request.{
  on_token_request, on_decryption_key_request, answer_with_key, generate_decryption_key_segments,
  cp_on_decryption_key_request, kp_on_decryption_key_request,
}
use nac_abe.AttributeAuthority.Entitled.{IsEntitled}
use nac_abe.AttributeAuthority.Lifetime.{begins, certifies, cp_put-IsEntitled, kp_put-IsEntitled}
use nac_abe.Sample.Codec.{frames, frame, body, unframes, read}
use nac_abe.Sample.Names.{toy_ndn}
use nac_abe.Sample.Certificates.{named, toy_security}
use nac_abe.Sample.Abe.{toy_abe, key_of}
use nac_abe.Sample.Keys.{toy_crypto}
use nac_abe.Sample.AuthorityTests.{draw, request}

abbrev fresh_authority : {Token : Type 0} → Bytes → AttributeAuthority Token
fresh_authority abe_type = record {
  m_cert = named (text "aa");
  m_trust_config = empty_trust;
  m_max_segment_size = 1500;
  m_segment_map = [];
  m_abe_type = abe_type;
  m_pub_params = record { m_pub = 1 ∷ [] };
  m_master_key = record { m_msk = 1 ∷ [] };
  m_tokens = [];
}

abbrev first_of : List Data → Data
first_of [] = data_template []
first_of (d ∷ ds) = d

abbrev packets : {S : Type 0} → Result (List Data) × S → List Data
packets p = elim p.0 [ ok ds ↦ ds | err x ↦ [] ]

abbrev cp_authority : CpAttributeAuthority
cp_authority =
    add_new_policy_for (named (text "consumer")) (text "a" ∷ []) (fresh_authority abe_type_cp_abe)

abbrev cp_run : Result (List Data) × CpAttributeAuthority
cp_run = cp_on_decryption_key_request request nack_reply draw cp_authority

cp_made : new_cp_authority (named (text "aa")) 0 ≡ ok (fresh_authority abe_type_cp_abe)
unfolding new_cp_authority new_authority cp_init init
cp_made = refl

cp_put-IsEntitled_example : IsEntitled cp_prv_key_gen cp_run.1 (first_of (packets cp_run))
unfolding cp_on_decryption_key_request cp_get_private_key cp_prv_key_gen policy_string join_bars
    pop_back add_new_policy_for add_new_policy unframes read frames frame body find insert put erase
    on_token_request on_decryption_key_request find_certificate_from_local add_or_update_certificate
    answer_with_key generate_decryption_key_segments prv_key_gen key_of key_to_buffer
    encrypt_data_content_with_ck generate_key generate_iv aes_encrypt rsa_encrypt
cp_put-IsEntitled_example =
    cp_put-IsEntitled (named (text "aa")) 0 (fresh_authority abe_type_cp_abe) cp_authority cp_run.1
      request nack_reply draw (packets cp_run) (first_of (packets cp_run)) cp_made
      (certifies (fresh_authority abe_type_cp_abe) (named (text "consumer")) (text "a" ∷ []) begins)
      refl (inl refl)

abbrev kp_authority : KpAttributeAuthority
kp_authority =
    add_new_policy_for (named (text "consumer")) (text "a") (fresh_authority abe_type_kp_abe)

abbrev kp_run : Result (List Data) × KpAttributeAuthority
kp_run = kp_on_decryption_key_request request nack_reply draw kp_authority

kp_made : new_kp_authority (named (text "aa")) 1500 0 ≡ ok (fresh_authority abe_type_kp_abe)
unfolding new_kp_authority new_authority kp_init init
kp_made = refl

kp_put-IsEntitled_example : IsEntitled kp_prv_key_gen kp_run.1 (first_of (packets kp_run))
unfolding kp_on_decryption_key_request kp_get_private_key kp_prv_key_gen add_new_policy_for
    add_new_policy unframes read frames frame body find insert put erase on_token_request
    on_decryption_key_request find_certificate_from_local add_or_update_certificate answer_with_key
    generate_decryption_key_segments prv_key_gen key_of key_to_buffer encrypt_data_content_with_ck
    generate_key generate_iv aes_encrypt rsa_encrypt
kp_put-IsEntitled_example =
    kp_put-IsEntitled (named (text "aa")) 1500 0 (fresh_authority abe_type_kp_abe) kp_authority
      kp_run.1 request nack_reply draw (packets kp_run) (first_of (packets kp_run)) kp_made
      (certifies (fresh_authority abe_type_kp_abe) (named (text "consumer")) (text "a") begins) refl
      (inl refl)
