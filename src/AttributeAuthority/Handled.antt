-- ===== src/AttributeAuthority/Handled.antt =====
-- attribute-authority.cpp: what a request for a decryption key comes to.
use nac_abe.Common.{◌+◌, ◌≡◌, List, [], inl, inr, is_some, Option-cases, Bool-cases}
use nac_abe.Common.Map.{find, insert}
use nac_abe.Common.Result.{
  Result, ok, err, Exception, Result-cases, tlv_error, name_error, invalid_argument,
}
use nac_abe.Ndn.{Ndn, name_eq}
use nac_abe.Packets.{Interest, Data}
use nac_abe.Security.{Security}
use nac_abe.OpenAbe.{OpenAbe}
use nac_abe.Algo.Keys.{PrivateKey, key_to_buffer}
use nac_abe.TrustConfig.{
  Reply, success, failure, find_certificate_from_local, find_certificate_from_network,
}
use nac_abe.NdnCrypto.{Crypto, encrypt_data_content_with_ck}
use nac_abe.AttributeAuthority.State.{IssueDraw, AttributeAuthority, GetPrivateKey}
use nac_abe.AttributeAuthority.Request.{
  first_packet, stored_segments, is_for_segment, generate_decryption_key_segments, answer_with_key,
  on_decryption_key_request, on_token_request,
}

module _ ⦃ndn : Ndn⦄ ⦃sec : Security⦄ ⦃abe : OpenAbe⦄ ⦃crypto : Crypto⦄ where
  open ndn use {Name, Block, append, version, wire, at, size, name_from_value}

  abbrev pub key_segments :
      {Token : Type 0} → AttributeAuthority Token → Name → Block → IssueDraw → List Data
  key_segments a object block draw = sec.segment (wire block) object a.m_max_segment_size 4000 0

  module _ {Token : Type 0} (get_private_key : GetPrivateKey Token)
      (a : AttributeAuthority Token) where
    -- A request throws, has no answer, is answered from what is kept, or has a new key made.
    pub data Handled : Result (List Data) × AttributeAuthority Token → Type 0 where
      throws : (x : Exception) → Handled (err x, a)
      silent : Handled (ok [], a)
      kept : (n : Name) → Handled (ok (stored_segments n a), a)
      issues :
          (c : sec.Certificate) (object : Name) (draw : IssueDraw) (key : PrivateKey)
          (block : Block)
          → get_private_key a (sec.identity c) draw.key_seed ≡ ok key
          → encrypt_data_content_with_ck (key_to_buffer key) (sec.public_key c) draw.crypto_draw
            ≡ ok block
          → Handled (
            ok (first_packet (key_segments a object block draw)),
            record a {
              m_segment_map = insert object (key_segments a object block draw) a.m_segment_map;
            },
          )

    answer-Handled :
        (i : Interest) (c : sec.Certificate) (draw : IssueDraw)
        → Handled (answer_with_key get_private_key i c draw a)
    unfolding answer_with_key generate_decryption_key_segments
    answer-Handled i c draw =
        elim (Result-cases (get_private_key a (sec.identity c) draw.key_seed)) [
          | inr (x, e) ↦ rw e (throws x)
          | inl (key, e) ↦
              elim (Result-cases (
                encrypt_data_content_with_ck (key_to_buffer key) (sec.public_key c)
                  draw.crypto_draw)) [
                    | inr (x, f) ↦ rw (e, f) (throws x)
                    | inl (block, f) ↦
                        rw (e, f) (issues c (append i.name (version draw.time)) draw key block e f)
                  ]
        ]

    base-Handled :
        (i : Interest) (reply : Reply) (draw : IssueDraw)
        → Handled (on_decryption_key_request get_private_key i reply draw a)
    unfolding on_decryption_key_request
    base-Handled i reply draw = elim (Option-cases (at i.name (size (sec.identity a.m_cert) + 1))) [
      | inl e ↦ rw e (throws name_error)
      | inr (part, e) ↦ elim (Option-cases (name_from_value part)) [
        | inl f ↦ rw (e, f) (throws tlv_error)
        | inr (key_name, f) ↦ elim (Bool-cases (is_for_segment i.name)) [
          | inl g ↦ rw (e, f, g) (kept i.name)
          | inr g ↦ elim (Bool-cases (sec.is_valid_key_name key_name)) [
            | inr k ↦ rw (e, f, g, k) silent
            | inl k ↦ elim (Option-cases (sec.identity_from_key_name key_name)) [
              | inl l ↦ rw (e, f, g, k, l) (throws invalid_argument)
              | inr (identity, l) ↦
                  elim (Option-cases (find_certificate_from_local key_name a.m_trust_config)) [
                    | inr (cert, m) ↦ rw (e, f, g, k, l, m) (answer-Handled i cert draw)
                    | inl m ↦ elim (Result-cases (find_certificate_from_network reply)) [
                      | inr (x, o) ↦ rw (e, f, g, k, l, m, o) (throws x)
                      | inl (success cert, o) ↦
                          rw (e, f, g, k, l, m, o) (answer-Handled i cert draw)
                      | inl (failure info, o) ↦ rw (e, f, g, k, l, m, o) silent
                    ]
                  ]
            ]
          ]
        ]
      ]
    ]

    pub on_token_request-Handled :
        (i : Interest) (reply : Reply) (draw : IssueDraw)
        → Handled (on_token_request get_private_key i reply draw a)
    unfolding on_token_request
    on_token_request-Handled i reply draw =
        elim (Option-cases (at i.name (size (sec.identity a.m_cert) + 1))) [
          | inl e ↦ rw e (throws name_error)
          | inr (part, e) ↦ elim (Option-cases (name_from_value part)) [
            | inl f ↦ rw (e, f) (throws tlv_error)
            | inr (key_name, f) ↦ elim (Option-cases (sec.identity_from_key_name key_name)) [
              | inl g ↦ rw (e, f, g) (throws invalid_argument)
              | inr (identity, g) ↦ elim (Bool-cases (is_some (find identity a.m_tokens))) [
                | inl k ↦ rw (e, f, g, k) (base-Handled i reply draw)
                | inr k ↦ rw (e, f, g, k) silent
              ]
            ]
          ]
        ]
