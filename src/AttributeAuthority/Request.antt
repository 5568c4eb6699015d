-- ===== src/AttributeAuthority/Request.antt =====
-- attribute-authority: the requests for a decryption key.
use nac_abe.Common.{◌+◌, Bool, false, none, some, List, [], ◌∷◌, is_some, if◌then◌else◌, ◌==◌}
use nac_abe.Common.Map.{find, insert}
use nac_abe.Common.Result.{name_error, tlv_error, invalid_argument, or_throw}
use nac_abe.Common.Exec.{Exec, pure, modify, lift, ◌>>=◌, ◌>>◌}
use nac_abe.Ndn.{Ndn, name_eq}
use nac_abe.Packets.{Interest, Data}
use nac_abe.Security.{Security}
use nac_abe.OpenAbe.{OpenAbe}
use nac_abe.Algo.Keys.{key_to_buffer}
use nac_abe.TrustConfig.{
  find_certificate_from_local, find_certificate_from_network, Reply, success, failure,
}
use nac_abe.NdnCrypto.{Crypto, encrypt_data_content_with_ck}
use nac_abe.AttributeAuthority.State.{
  IssueDraw, AttributeAuthority, CpAttributeAuthority, KpAttributeAuthority, GetPrivateKey,
  cp_get_private_key, kp_get_private_key,
}

module _ ⦃ndn : Ndn⦄ where
  open ndn use {Name, at_back, is_segment, is_version}

  abbrev pub is_for_segment : Name → Bool
  is_for_segment n = elim (at_back n 0) [
    | none ↦ false
    | some c ↦ elim (at_back n 1) [
      | none ↦ false
      | some d ↦ if is_segment c then is_version d else false
    ]
  ]

  abbrev pub select : Name → List Data → List Data
  select n [] = []
  select n (d ∷ rest) = if n == d.name then d ∷ select n rest else select n rest

  abbrev pub first_packet : List Data → List Data
  first_packet [] = []
  first_packet (d ∷ rest) = d ∷ []

module _ ⦃ndn : Ndn⦄ ⦃sec : Security⦄ where
  open ndn use {Name, drop_last}

  abbrev pub stored_segments : {Token : Type 0} → Name → AttributeAuthority Token → List Data
  stored_segments n a = elim (find (drop_last n) a.m_segment_map) [
    | none ↦ []
    | some ds ↦ select n ds
  ]

module _ ⦃ndn : Ndn⦄ ⦃sec : Security⦄ ⦃abe : OpenAbe⦄ ⦃crypto : Crypto⦄ where
  open ndn use {Name, at, size, append, version, drop_last, name_from_value, wire}

  module _ {Token : Type 0} (get_private_key : GetPrivateKey Token) where
    unfoldable pub generate_decryption_key_segments :
        Name → sec.Certificate → IssueDraw → Exec (AttributeAuthority Token) (List Data)
    generate_decryption_key_segments obj_name cert draw a =
        (do
          key ← lift (get_private_key a (sec.identity cert) draw.key_seed)
          block ← lift (
              encrypt_data_content_with_ck (key_to_buffer key) (sec.public_key cert)
                draw.crypto_draw)
          let segments = sec.segment (wire block) obj_name a.m_max_segment_size 4000 0
          modify (λ b. record b { m_segment_map = insert obj_name segments b.m_segment_map })
          pure segments)
          a

    -- The first packet of the key's segments, under the request's name with a version.
    unfoldable pub answer_with_key :
        Interest → sec.Certificate → IssueDraw → Exec (AttributeAuthority Token) (List Data)
    answer_with_key i cert draw = do
      segments ← generate_decryption_key_segments (append i.name (version draw.time)) cert draw
      pure (first_packet segments)

    -- `AttributeAuthority::onDecryptionKeyRequest`; the packets are those that are put. `reply` is
    -- what comes for the certificate, if it is asked for.
    unfoldable pub on_decryption_key_request :
        Interest → Reply → IssueDraw → Exec (AttributeAuthority Token) (List Data)
    on_decryption_key_request i reply draw a =
        (do
          c ← lift (or_throw name_error (at i.name (size (sec.identity a.m_cert) + 1)))
          supposed_key_name ← lift (or_throw tlv_error (name_from_value c))
          if is_for_segment i.name
              then pure (stored_segments i.name a)
              else if sec.is_valid_key_name supposed_key_name
              then (do
                identity ←
                    lift (or_throw invalid_argument (sec.identity_from_key_name supposed_key_name))
                elim (find_certificate_from_local supposed_key_name a.m_trust_config) [
                  | some cert ↦ answer_with_key i cert draw
                  | none ↦ (do
                    found ← lift (find_certificate_from_network reply)
                    elim found [
                      | success cert ↦ answer_with_key i cert draw
                      | failure info ↦ pure []
                    ])
                ])
              else pure [])
          a

    -- The override of either child: only a decryptor with a token is answered.
    unfoldable pub on_token_request :
        Interest → Reply → IssueDraw → Exec (AttributeAuthority Token) (List Data)
    on_token_request i reply draw a =
        (do
          c ← lift (or_throw name_error (at i.name (size (sec.identity a.m_cert) + 1)))
          supposed_key_name ← lift (or_throw tlv_error (name_from_value c))
          identity ← lift (or_throw invalid_argument (sec.identity_from_key_name supposed_key_name))
          if is_some (find identity a.m_tokens)
              then on_decryption_key_request i reply draw
              else pure [])
          a

  unfoldable pub cp_on_decryption_key_request :
      Interest → Reply → IssueDraw → Exec CpAttributeAuthority (List Data)
  unfolding on_token_request
  cp_on_decryption_key_request = on_token_request cp_get_private_key

  unfoldable pub kp_on_decryption_key_request :
      Interest → Reply → IssueDraw → Exec KpAttributeAuthority (List Data)
  unfolding on_token_request
  kp_on_decryption_key_request = on_token_request kp_get_private_key
