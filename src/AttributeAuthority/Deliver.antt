-- ===== src/AttributeAuthority/Deliver.antt =====
-- attribute-authority.cpp and consumer.cpp: the packets of a key, and the decryptor who opens it.
use mathlib.Core.Path.{subst}
use mathlib.Core.List.{append_assoc}
use nac_abe.Common.{
  ℕ, ◌+◌, Bytes, ◌≡◌, sym, ap, ◌∙◌, true, none, some, List, [], ◌∷◌, ◌↔◌, if◌then◌else◌, ◌++◌, All,
  Member, concat_map, arith, inl, inr, is_some, ◌==◌, Bool-cases,
}
use nac_abe.Common.Text.{has_no_nul}
use nac_abe.Common.Map.{find, insert}
use nac_abe.Common.Result.{ok}
use nac_abe.Constants.{decrypt_key}
use nac_abe.Ndn.{Ndn, name_eq}
use nac_abe.Ndn.Positions.{at_behind}
use nac_abe.Packets.{Data, interest}
use nac_abe.Security.{Security}
use nac_abe.OpenAbe.{OpenAbe}
use nac_abe.Algo.Keys.{key_to_buffer, key_from_buffer-to_buffer}
use nac_abe.TrustConfig.{Reply}
use nac_abe.NdnCrypto.{Crypto}
use nac_abe.NdnCrypto.RoundTrip.{decrypt_data_content_tpm-encrypt}
use nac_abe.Consumer.State.{Consumer}
use nac_abe.Consumer.Consume.{key_interest, on_private_key}
use nac_abe.AttributeAuthority.State.{
  IssueDraw, AttributeAuthority, GetPrivateKey, add_new_policy, cp_get_private_key,
  kp_get_private_key,
}
use nac_abe.AttributeAuthority.Request.{
  select, is_for_segment, stored_segments, on_decryption_key_request, on_token_request,
}
use nac_abe.AttributeAuthority.Issue.{Issued, key_object, key_request_components, token_value}

module _ ⦃ndn : Ndn⦄ ⦃sec : Security⦄ ⦃abe : OpenAbe⦄ ⦃crypto : Crypto⦄ where
  open ndn use {
    Name, Component, components, append, generic, version, segment, wire_encode, at, at_back, size,
  }

  -- A decryptor that has fetched all packets of the key which was issued for its certificate, and
  -- whose TPM has the certificate's private key, has that key.
  pub on_private_key-Issued :
      {Token : Type 0} (get_private_key : GetPrivateKey Token) (a a' : AttributeAuthority Token)
      (object : Name) (draw : IssueDraw) (put : List Data) (tpm : crypto.Tpm) (private_key : Bytes)
      (con : Consumer) (s : Issued get_private_key a a' object con.m_cert draw put)
      → crypto.tpm_key tpm (sec.key_name con.m_cert) ≡ some private_key
      → crypto.derive_public_key private_key ≡ some (sec.public_key con.m_cert)
      → has_no_nul s.key.m_prv ≡ true
      → on_private_key tpm (concat_map (λ d. d.content) s.segments) con
        ≡ (ok tt, record con { m_key_cache = s.key })
  unfolding on_private_key
  on_private_key-Issued get_private_key a a' object draw put tpm private_key con s k d h =
      rw (s.octets, ndn.from_wire-wire s.block)
        (rw
          (decrypt_data_content_tpm-encrypt (key_to_buffer s.key) private_key con.m_cert tpm
            draw.crypto_draw s.block k d s.sealed)
          (rw (key_from_buffer-to_buffer s.key h)))

  segment_request :
      (object n : Name) (v i : ℕ)
      → n ≡ append (append object (version v)) (segment i)
      → is_for_segment n ≡ true
  segment_request object n v i e = rw (
    is_for_segment,
    ndn.at_back_last n (components object ++ version v ∷ []) (segment i)
        (rw e (simp (ndn.components-append, append_assoc))),
    ndn.at_back_second n (components object) (version v) (segment i)
        (rw e (simp (ndn.components-append, append_assoc))),
    ndn.is_segment-segment i,
    ndn.is_version-version v,
  )

  -- What is put is, of the kept packets, each that has the name.
  selected :
      (n : Name) (e : Data) (ds : List Data) → Member e (select n ds) ↔ (Member e ds × (n ≡ e.name))
  selected n e ds = (found n e ds, λ p. kept n e ds p.0 p.1)
    where
      found :
          (n : Name) (e : Data) (ds : List Data)
          → Member e (select n ds)
          → Member e ds × (n ≡ e.name)
      found n e [] m = elim m [ ]
      found n e (d ∷ ds) m = elim (Bool-cases (n == d.name)) [
        | inr b ↦
            let (m', q) =
              found n e ds
                (subst (λ x. Member e (if x then d ∷ select n ds else select n ds)) b m) in
            (inr m', q)
        | inl b ↦ elim (subst (λ x. Member e (if x then d ∷ select n ds else select n ds)) b m) [
          | inl q ↦ (inl q, (ndn.name_beq_iff n d.name).0 b ∙ ap (λ (x : Data). x.name) (sym q))
          | inr m' ↦ (let (m'', q) = found n e ds m' in (inr m'', q))
        ]
      ]

      kept :
          (n : Name) (e : Data) (ds : List Data) → Member e ds → n ≡ e.name → Member e (select n ds)
      kept n e [] m q = elim m [ ]
      kept n e (d ∷ ds) m q = elim (Bool-cases (n == d.name)) [
        | inl b ↦ rw b (elim m [ inl h ↦ inl h | inr m' ↦ inr (kept n e ds m' q) ])
        | inr b ↦ rw b (elim m [
          | inl h ↦ absurd (ground (arith, ndn.name_beq_iff n d.name, ap (λ (x : Data). x.name) h))
          | inr m' ↦ kept n e ds m' q
        ])
      ]

  All-Member : (P : Data → Type 0) (d : Data) (ds : List Data) → All P ds → Member d ds → P d
  All-Member P d (e ∷ ds) h (inl q) = subst P (sym q) h.0
  All-Member P d (e ∷ ds) h (inr m) = All-Member P d ds h.1 m
  All-Member P d [] h m = elim m [ ]

  module _ {Token : Type 0} (get_private_key : GetPrivateKey Token) where
    stored_value :
        (a : AttributeAuthority Token) (n object : Name) (i v : ℕ) (c : sec.Certificate)
        (reply : Reply) (draw : IssueDraw) (segments : List Data)
        → at n (size (sec.identity a.m_cert) + 1) ≡ some (generic (wire_encode (sec.key_name c)))
        → n ≡ append (append object (version v)) (segment i)
        → find (append object (version v)) a.m_segment_map ≡ some segments
        → on_decryption_key_request get_private_key (interest n) reply draw a
          ≡ (ok (select n segments), a)
    unfolding on_decryption_key_request
    stored_value a n object i v c reply draw segments e q f =
        let dropped : ndn.drop_last n ≡ append object (version v) =
          ap ndn.drop_last q ∙ ndn.drop_last-append _ _ in
        let stored : stored_segments n a ≡ select n segments = rw (stored_segments, dropped, f) in
        rw (e, segment_request object n v i q, on_decryption_key_request)
          (ground (arith, ndn.name_from_value-generic (sec.key_name c), stored))

    -- After a key has been issued, a request for any packet of it is answered, from what is kept, with
    -- just those packets of the key that have the requested name: no key is generated again, and the
    -- authority stays as it is.
    pub on_token_request_stored :
        (a a' : AttributeAuthority Token) (c : sec.Certificate) (token : Token) (reply : Reply)
        (draw draw' : IssueDraw) (put : List Data) (d : Data)
        (s : Issued get_private_key a a' (key_object get_private_key a c draw) c draw put)
        → a'.m_cert ≡ a.m_cert
        → find (sec.identity c) a'.m_tokens ≡ some token
        → Member d s.segments
        → (ds : List Data) × (on_token_request get_private_key (interest d.name) reply draw' a'
            ≡ (ok ds, a'))
          × ((e : Data) → Member e ds ↔ (Member e s.segments × (d.name ≡ e.name)))
    on_token_request_stored a a' c token reply draw draw' put d s same h m =
        let (i, q) = All-Member _ d s.segments s.names m in
        let there : at d.name (size (sec.identity a'.m_cert) + 1)
            ≡ some (generic (wire_encode (sec.key_name c))) =
          rw same (
            at_behind d.name (sec.identity a.m_cert)
              (generic decrypt_key
                ∷ generic (wire_encode (sec.key_name c))
                ∷ version draw.time
                ∷ segment i
                ∷ [])
              1 (rw q (simp (ndn.components-append, append_assoc)))) in
        (
          select d.name s.segments,
          token_value get_private_key a' (interest d.name) c token reply draw' there h
              ∙ stored_value a' d.name _ i draw.time c reply draw' s.segments there q s.stored,
          λ e. selected d.name e s.segments,
        )

    -- Who has no token has no answer, and the authority stays as it is.
    pub on_token_request_ignored :
        (a : AttributeAuthority Token) (c : sec.Certificate) (reply : Reply) (draw : IssueDraw)
        → find (sec.identity c) a.m_tokens ≡ none
        → on_token_request get_private_key
            (key_interest (sec.identity a.m_cert) (sec.key_name c))
            reply
            draw
            a
          ≡ (ok [], a)
    unfolding on_token_request
    on_token_request_ignored a c reply draw h = ground (
      arith,
      at_behind (key_interest (sec.identity a.m_cert) (sec.key_name c)).name (sec.identity a.m_cert)
          _ 1 (key_request_components (sec.identity a.m_cert) (sec.key_name c)),
      ndn.name_from_value-generic (sec.key_name c),
      sec.identity_from_key_name-key_name c,
    )

  -- `addNewPolicy` for a decryptor that has a token changes nothing for it, under either scheme: it
  -- is issued keys as before.
  pub renewed_policy_ignored :
      (cp : AttributeAuthority (List Bytes)) (kp : AttributeAuthority Bytes) (n : Name)
      (attributes : List Bytes) (policy : Bytes) (r : ℕ)
      → is_some (find n cp.m_tokens) ≡ true
      → is_some (find n kp.m_tokens) ≡ true
      → (cp_get_private_key (add_new_policy n attributes cp) n r ≡ cp_get_private_key cp n r)
        × (kp_get_private_key (add_new_policy n policy kp) n r ≡ kp_get_private_key kp n r)
  unfolding add_new_policy insert cp_get_private_key kp_get_private_key
  renewed_policy_ignored cp kp n attributes policy r h k = (rw h, rw k)
