-- ===== src/AttributeAuthority/Issue.antt =====
-- attribute-authority.cpp: the answer to a decryptor's request for its key.
use mathlib.Core.List.{append_assoc}
use nac_abe.Common.{
  ℕ, ◌+◌, Bytes, ◌≡◌, refl, sym, ap, ◌∙◌, false, none, some, List, [], ◌∷◌, ◌++◌, All, concat_map,
  arith, inl, inr, Option-cases,
}
use nac_abe.Common.Map.{find, insert, find-insert_self}
use nac_abe.Common.Result.{ok}
use nac_abe.Constants.{decrypt_key}
use nac_abe.Ndn.{Ndn, name_eq}
use nac_abe.Ndn.Positions.{at_behind}
use nac_abe.Packets.{Interest, Data}
use nac_abe.Security.{Security}
use nac_abe.OpenAbe.{OpenAbe}
use nac_abe.Algo.Keys.{PrivateKey, key_to_buffer}
use nac_abe.TrustConfig.{Reply, find_certificate_from_local}
use nac_abe.NdnCrypto.{Crypto, encrypt_data_content_with_ck}
use nac_abe.Consumer.Consume.{key_interest}
use nac_abe.AttributeAuthority.State.{IssueDraw, AttributeAuthority, GetPrivateKey}
use nac_abe.AttributeAuthority.Request.{
  first_packet, generate_decryption_key_segments, answer_with_key, is_for_segment,
  on_decryption_key_request, on_token_request,
}

module _ ⦃ndn : Ndn⦄ ⦃sec : Security⦄ ⦃abe : OpenAbe⦄ ⦃crypto : Crypto⦄ where
  open ndn use {
    Name, Component, Block, components, append, generic, version, wire, wire_encode, from_wire, at,
    at_back, size, is_segment, name_from_value,
  }

  -- What the authority has made for a decryptor's certificate: the decryptor's key, encrypted for
  -- the certificate, in segments that are kept under their object's name, the first of them put.
  pub record Issued {Token : Type 0} (get_private_key : GetPrivateKey Token)
      (a a' : AttributeAuthority Token) (object : Name) (c : sec.Certificate) (draw : IssueDraw)
      (put : List Data) : Type 0 where
    pub key : PrivateKey
    pub block : Block
    pub segments : List Data
    pub issued : get_private_key a (sec.identity c) draw.key_seed ≡ ok key
    pub sealed :
        encrypt_data_content_with_ck (key_to_buffer key) (sec.public_key c) draw.crypto_draw
        ≡ ok block
    pub stored : find object a'.m_segment_map ≡ some segments
    pub answered : put ≡ first_packet segments
    pub names : All (λ d. (i : ℕ) × (d.name ≡ append object (ndn.segment i))) segments
    pub octets : concat_map (λ d. d.content) segments ≡ wire block

  pub key_request_components :
      (prefix key_name : Name)
      → components (key_interest prefix key_name).name
        ≡ components prefix ++ generic decrypt_key ∷ generic (wire_encode key_name) ∷ []
  key_request_components prefix key_name = simp (ndn.components-append, append_assoc)

  last_lem : (n : Name) (b : Bytes) → at_back n 0 ≡ some (generic b) → is_for_segment n ≡ false
  last_lem n b e = elim (Option-cases (at_back n 1)) [
    | inl e' ↦ rw (is_for_segment, e, e')
    | inr (d, e') ↦ rw (is_for_segment, e, e', ndn.is_segment-generic b)
  ]

  not_for_segment :
      (prefix key_name : Name) → is_for_segment (key_interest prefix key_name).name ≡ false
  not_for_segment prefix key_name =
      last_lem (key_interest prefix key_name).name (wire_encode key_name) (
        ndn.at_back_last (key_interest prefix key_name).name
          (components prefix ++ generic decrypt_key ∷ []) (generic (wire_encode key_name))
          (key_request_components prefix key_name
            ∙ sym (
                append_assoc (components prefix) (generic decrypt_key ∷ [])
                  (generic (wire_encode key_name) ∷ []))))

  module _ {Token : Type 0} (get_private_key : GetPrivateKey Token) where
    made :
        (a a' : AttributeAuthority Token) (key : PrivateKey) (block : Block) (segments : List Data)
        (n : Name) (c : sec.Certificate) (draw : IssueDraw)
        → find (append n (version draw.time)) a.m_segment_map ≡ none
        → get_private_key a (sec.identity c) draw.key_seed ≡ ok key
        → encrypt_data_content_with_ck (key_to_buffer key) (sec.public_key c) draw.crypto_draw
          ≡ ok block
        → segments
          ≡ sec.segment (wire block) (append n (version draw.time)) a.m_max_segment_size 4000 0
        → a' ≡ record a {
          m_segment_map = insert (append n (version draw.time)) segments a.m_segment_map;
        }
        → Issued get_private_key a a' (append n (version draw.time)) c draw (first_packet segments)
    made a a' key block segments n c draw fresh e e' q q' = record {
      key = key;
      block = block;
      segments = segments;
      issued = e;
      sealed = e';
      stored =
          ap (λ (b : AttributeAuthority Token). find (append n (version draw.time)) b.m_segment_map)
            q'
          ∙ find-insert_self (append n (version draw.time)) segments a.m_segment_map fresh;
      answered = refl;
      names = rw q (
          sec.segment_names (wire block) (append n (version draw.time)) a.m_max_segment_size 4000
            0);
      octets = rw q (
          sec.segment_contents (wire block) (append n (version draw.time)) a.m_max_segment_size 4000
            0);
    }

    abbrev key_packets : AttributeAuthority Token → Name → Block → IssueDraw → List Data
    key_packets a object block draw = sec.segment (wire block) object a.m_max_segment_size 4000 0

    abbrev keeping : AttributeAuthority Token → Name → List Data → AttributeAuthority Token
    keeping a object segments = record a { m_segment_map = insert object segments a.m_segment_map }

    generated :
        (a : AttributeAuthority Token) (object : Name) (c : sec.Certificate) (draw : IssueDraw)
        (key : PrivateKey) (block : Block)
        → get_private_key a (sec.identity c) draw.key_seed ≡ ok key
        → encrypt_data_content_with_ck (key_to_buffer key) (sec.public_key c) draw.crypto_draw
          ≡ ok block
        → generate_decryption_key_segments get_private_key object c draw a ≡ (
          ok (key_packets a object block draw),
          keeping a object (key_packets a object block draw),
        )
    unfolding generate_decryption_key_segments
    generated a object c draw key block e e' = ground arith

    base_value :
        (a : AttributeAuthority Token) (i : Interest) (c : sec.Certificate) (reply : Reply)
        (draw : IssueDraw)
        → at i.name (size (sec.identity a.m_cert) + 1)
          ≡ some (generic (wire_encode (sec.key_name c)))
        → is_for_segment i.name ≡ false
        → find_certificate_from_local (sec.key_name c) a.m_trust_config ≡ some c
        → on_decryption_key_request get_private_key i reply draw a
          ≡ answer_with_key get_private_key i c draw a
    unfolding on_decryption_key_request
    base_value a i c reply draw e f k = ground (
      arith,
      ndn.name_from_value-generic (sec.key_name c),
      sec.identity_from_key_name-key_name c,
      sec.is_valid_key_name-key_name c,
    )

    pub token_value :
        (a : AttributeAuthority Token) (i : Interest) (c : sec.Certificate) (token : Token)
        (reply : Reply) (draw : IssueDraw)
        → at i.name (size (sec.identity a.m_cert) + 1)
          ≡ some (generic (wire_encode (sec.key_name c)))
        → find (sec.identity c) a.m_tokens ≡ some token
        → on_token_request get_private_key i reply draw a
          ≡ on_decryption_key_request get_private_key i reply draw a
    unfolding on_token_request
    token_value a i c token reply draw e h =
        ground (
          arith,
          ndn.name_from_value-generic (sec.key_name c),
          sec.identity_from_key_name-key_name c,
        )

    answer_value :
        (a : AttributeAuthority Token) (i : Interest) (c : sec.Certificate) (draw : IssueDraw)
        (key : PrivateKey) (block : Block)
        → get_private_key a (sec.identity c) draw.key_seed ≡ ok key
        → encrypt_data_content_with_ck (key_to_buffer key) (sec.public_key c) draw.crypto_draw
          ≡ ok block
        → answer_with_key get_private_key i c draw a ≡ (
          ok (first_packet (key_packets a (append i.name (version draw.time)) block draw)),
          keeping a
              (append i.name (version draw.time))
              (key_packets a (append i.name (version draw.time)) block draw),
        )
    unfolding answer_with_key
    answer_value a i c draw key block e e' =
        ground (arith, generated a (append i.name (version draw.time)) c draw key block e e')

    abbrev pub key_object : AttributeAuthority Token → sec.Certificate → IssueDraw → Name
    key_object a c draw =
        append (key_interest (sec.identity a.m_cert) (sec.key_name c)).name (version draw.time)

    -- The request of a decryptor who has a token, and whose certificate the authority has, is
    -- answered if a key can be generated and encrypted: the answer is the first packet of that key,
    -- encrypted for the certificate and kept in segments, where nothing was kept under the name that
    -- the time gives.
    pub on_token_request-Issued :
        (a : AttributeAuthority Token) (c : sec.Certificate) (token : Token) (reply : Reply)
        (draw : IssueDraw) (key : PrivateKey) (block : Block)
        → find (sec.identity c) a.m_tokens ≡ some token
        → find_certificate_from_local (sec.key_name c) a.m_trust_config ≡ some c
        → find (key_object a c draw) a.m_segment_map ≡ none
        → get_private_key a (sec.identity c) draw.key_seed ≡ ok key
        → encrypt_data_content_with_ck (key_to_buffer key) (sec.public_key c) draw.crypto_draw
          ≡ ok block
        → (put : List Data) × (a' : AttributeAuthority Token) × (on_token_request get_private_key
              (key_interest (sec.identity a.m_cert) (sec.key_name c))
              reply
              draw
              a
            ≡ (ok put, a'))
          × Issued get_private_key a a' (key_object a c draw) c draw put
    on_token_request-Issued a c token reply draw key block h k fresh e e' =
        let i = key_interest (sec.identity a.m_cert) (sec.key_name c) in
        let there =
          at_behind i.name (sec.identity a.m_cert) _ 1
            (key_request_components (sec.identity a.m_cert) (sec.key_name c)) in
        let segments = key_packets a (key_object a c draw) block draw in
        (
          first_packet segments,
          keeping a (key_object a c draw) segments,
          token_value a i c token reply draw there h
              ∙ base_value a i c reply draw there
                  (not_for_segment (sec.identity a.m_cert) (sec.key_name c)) k
              ∙ answer_value a i c draw key block e e',
          made a _ key block segments i.name c draw fresh e e' refl refl,
        )
