-- ===== src/Producer/Produce/Links.antt =====
-- producer.cpp: the packets of `produce`, and how they name one another.
use mathlib.Core.Path.{subst}
use nac_abe.Common.{
  ℕ, Bytes, ◌≡◌, ◌≢◌, refl, ap, ◌∙◌, true, false, ◌⊎◌, inl, inr, some, List, [], ◌∷◌, All,
  concat_map, arith, bytes_beq, bytes_beq_iff, Bool-cases, sym, Option-cases, false,
}
use nac_abe.Common.Text.{until_nul, ne_of_beq}
use nac_abe.Common.Result.{ok, Result-cases}
use nac_abe.Constants.{abe_type_cp_abe, abe_type_kp_abe, content_key, encrypt_by, tlv_attribute}
use nac_abe.Producer.Decimal.{to_string}
use nac_abe.Ndn.{Ndn}
use nac_abe.Packets.{Data}
use nac_abe.Security.{Security}
use nac_abe.OpenAbe.{OpenAbe}
use nac_abe.Algo.Content.{ContentKey, CipherText, make_ck_content}
use nac_abe.Algo.Context.{encrypt}
use nac_abe.Algo.Support.{cp_content_key_gen, kp_content_key_gen}
use nac_abe.Producer.State.{Draw, Template, Producer}
use nac_abe.Producer.Produce.{
  KeyData, Produced, nothing, data_block, ck_data_name, ck_segments, ck_object_name,
  get_ck_encrypted_data, produce_with_key_data, produce_for_policy, attributes_component,
  produce_for_attributes,
}

module _ ⦃ndn : Ndn⦄ ⦃sec : Security⦄ ⦃abe : OpenAbe⦄ where
  open ndn use {Name, Component, append, append_name, drop_last, wire}
  open sec use {segment}

  -- The packets are the segments of one object: of these octets and under this name.
  pub record AreSegments (object : Name) (octets : Bytes) (packets : List Data) : Type 0 where
    pub names : All (λ d. (i : ℕ) × (d.name ≡ append object (ndn.segment i))) packets
    pub octets_lem : concat_map (λ d. d.content) packets ≡ octets
    pub some_packet : packets ≢ []

  -- The packets carry the content, encrypted under a content key, and the key's block; the data's
  -- block ends with the name of the key's object, which is no segment's name.
  pub record Linked (p : Producer) (draw : Draw) (key : ContentKey) (suffix : Name)
      (content : Bytes) (r : Produced) : Type 0 where
    pub cipher : CipherText
    pub ck_object : Name
    pub ck_last :
        (last : Component) × (ndn.at_back ck_object 0 ≡ some last) × (ndn.is_segment last ≡ false)
    pub encrypted : encrypt key content draw.sym_seed ≡ ok cipher
    pub ck_packets : AreSegments ck_object (wire (make_ck_content key)) r.1
    pub data_packets :
        AreSegments
          (append_name (sec.identity p.m_cert) suffix)
          (wire (data_block cipher ck_object))
          r.0

  -- What a call of `produce` comes to, by the type of the parameters: nothing, or linked packets.
  abbrev pub Outcome :
      Producer → Draw → Bytes → (ContentKey → Type 0) → Name → Bytes → Produced → Type 0
  Outcome p draw abe_type Made suffix content r =
      ((r ≡ nothing)
        × ((p.m_param_fetcher.m_pub_params_cache.m_pub ≡ [])
            ⊎ (p.m_param_fetcher.m_abe_type ≢ abe_type)))
      ⊎ ((p.m_param_fetcher.m_pub_params_cache.m_pub ≢ [])
          × (p.m_param_fetcher.m_abe_type ≡ abe_type)
          × (key : ContentKey) × Made key
          × Linked p draw key suffix content r)

  pub segment-AreSegments : (b : Bytes) (n : Name) (m f t : ℕ) → AreSegments n b (segment b n m f t)
  segment-AreSegments b n m f t = record {
    names = sec.segment_names b n m f t;
    octets_lem = sec.segment_contents b n m f t;
    some_packet = sec.segment-ne-nil b n m f t;
  }

  pub ck_object_name_lem :
      (object : Name) (octets : Bytes) (packets : List Data)
      → AreSegments object octets packets
      → ck_object_name packets ≡ ok object
  unfolding ck_object_name
  ck_object_name_lem object octets [] s = absurd (s.some_packet refl)
  ck_object_name_lem object octets (d ∷ rest) s =
      ap ok (ap drop_last s.names.0.1 ∙ ndn.drop_last-append object (ndn.segment s.names.0.0))

  produced_of : Producer → Draw → Name → CipherText → List Data → Name → Template → ℕ → Produced
  produced_of p draw suffix cipher segments object template m =
      (get_ck_encrypted_data p draw suffix cipher object template m, segments)

  produced_lem :
      (p : Producer) (draw : Draw) (object : Name) (octets : Bytes) (key : ContentKey)
      (segments : List Data) (suffix : Name) (content : Bytes) (template : Template) (m : ℕ)
      (r : Produced)
      → AreSegments object octets segments
      → produce_with_key_data p draw (some (key, segments)) suffix content template m ≡ ok r
      → (cipher : CipherText) × (encrypt key content draw.sym_seed ≡ ok cipher)
        × (produced_of p draw suffix cipher segments object template m ≡ r)
  unfolding produced_of produce_with_key_data
  produced_lem p draw object octets key segments suffix content template m r s h =
      elim (Result-cases (encrypt key content draw.sym_seed)) [
        | inl (cipher, e) ↦ (cipher, e, ground (arith, ck_object_name_lem object octets segments s))
        | inr (x, e) ↦ absurd (ground (arith, ck_object_name_lem object octets segments s))
      ]

  -- The packets of a content key: the segments of its block, under a name that is no segment's.
  pub record AreKeyPackets (key : ContentKey) (packets : List Data) : Type 0 where
    pub object : Name
    pub last : (c : Component) × (ndn.at_back object 0 ≡ some c) × (ndn.is_segment c ≡ false)
    pub are : AreSegments object (wire (make_ck_content key)) packets

  pub segments_Linked :
      (p : Producer) (draw : Draw) (key : ContentKey) {segments : List Data}
      (k : AreKeyPackets key segments) (suffix : Name) (content : Bytes) (template : Template)
      (m : ℕ) (r : Produced)
      → produce_with_key_data p draw (some (key, segments)) suffix content template m ≡ ok r
      → Linked p draw key suffix content r
  unfolding produced_of get_ck_encrypted_data
  segments_Linked p draw key {segments} k suffix content template m r h =
      let (cipher, e, q) = produced_lem p draw _ _ key _ suffix content template m r k.are h in
      subst (Linked p draw key suffix content) q (record {
        cipher = cipher;
        ck_object = k.object;
        ck_last = k.last;
        encrypted = e;
        ck_packets = k.are;
        data_packets =
            segment-AreSegments (wire (data_block cipher k.object))
              (append_name (sec.identity p.m_cert) suffix) m template.freshness
              template.content_type;
      })

  abbrev key_name : Name → Draw → Name
  key_name identity draw =
      append
        (append (append identity (ndn.generic content_key)) (ndn.generic (to_string draw.word)))
        (ndn.generic encrypt_by)

  -- The key's name ends with what the key is encrypted for.
  pub ck_data_name_last :
      (p : Producer) (draw : Draw) (by : Component) (name : Name)
      → ndn.is_segment by ≡ false
      → ck_data_name p draw by ≡ ok name
      → (c : Component) × (ndn.at_back name 0 ≡ some c) × (ndn.is_segment c ≡ false)
  unfolding ck_data_name
  ck_data_name_last p draw by name s h =
      elim (Option-cases (sec.identity_from_cert_name (sec.cert_name p.m_cert))) [
        | inl e ↦ absurd (ground arith)
        | inr (identity, e) ↦
            let q : append (key_name identity draw) by ≡ name = ground arith in
            (
              by,
              ap (λ n. ndn.at_back n 0) (sym q)
                  ∙ ndn.at_back_last _ _ by (ndn.components-append _ by),
              s,
            )
      ]

  abbrev push : Component → Bytes → Component
  push c a = ndn.push_component c (ndn.make_binary_block tlv_attribute a)

  attributes_kind :
      (c : Component) (attributes : List Bytes)
      → ndn.is_segment (attributes_component c attributes) ≡ ndn.is_segment c
  unfolding attributes_component
  attributes_kind c [] = refl
  attributes_kind c (a ∷ rest) =
      attributes_kind (push c a) rest
      ∙ ndn.is_segment-push_component c (ndn.make_binary_block tlv_attribute a)

  pub attributes_component_kind :
      (attributes : List Bytes)
      → ndn.is_segment (attributes_component ndn.empty_component attributes) ≡ false
  attributes_component_kind attributes =
      attributes_kind ndn.empty_component attributes ∙ ndn.is_segment-empty_component

  made_Linked :
      (p : Producer) (draw : Draw) (name suffix : Name) (key : ContentKey) (content : Bytes)
      (ck_template template : Template) (m : ℕ) (r : Produced)
      → (c : Component) × (ndn.at_back name 0 ≡ some c) × (ndn.is_segment c ≡ false)
      → produce_with_key_data p draw
          (some (
            key,
            segment
                (wire (make_ck_content key))
                name
                m
                ck_template.freshness
                ck_template.content_type,
          ))
          suffix
          content
          template
          m
        ≡ ok r
      → Linked p draw key suffix content r
  made_Linked p draw name suffix key content ck_template template m r last h =
      segments_Linked p draw key
        (record {
          object = name;
          last = last;
          are =
              segment-AreSegments (wire (make_ck_content key)) name m ck_template.freshness
                ck_template.content_type;
        })
        suffix content template m r h

  -- From a content key and its segments on, both overloads make linked packets.
  key_data-Linked :
      (p : Producer) (draw : Draw) (by : Component) (key : ContentKey) (k : KeyData) (suffix : Name)
      (content : Bytes) (ck_template template : Template) (m : ℕ) (r : Produced)
      → ndn.is_segment by ≡ false
      → ck_segments p draw by key ck_template m ≡ ok k
      → produce_with_key_data p draw k suffix content template m ≡ ok r
      → Linked p draw key suffix content r
  key_data-Linked p draw by key k suffix content ck_template template m r s h h' =
      elim (Result-cases (ck_data_name p draw by)) [
        | inr (x, e) ↦ absurd (unfold ck_segments in ground arith)
        | inl (name, e) ↦
            let q : k
                ≡ some (
                  key,
                  segment (wire (make_ck_content key)) name m ck_template.freshness
                      ck_template.content_type,
                ) =
              unfold ck_segments in ground arith in
            made_Linked p draw name suffix key content ck_template template m r
              (ck_data_name_last p draw by name s e)
              (subst (λ k'. produce_with_key_data p draw k' suffix content template m ≡ ok r) q h')
      ]

  policy_ready :
      (p : Producer) (draw : Draw) (suffix : Name) (policy : Bytes) (content : Bytes)
      (ck_template template : Template) (m : ℕ) (r : Produced)
      → bytes_beq p.m_param_fetcher.m_pub_params_cache.m_pub [] ≡ false
      → bytes_beq p.m_param_fetcher.m_abe_type abe_type_cp_abe ≡ true
      → produce_for_policy p draw suffix policy content ck_template template m ≡ ok r
      → (key : ContentKey) × (cp_content_key_gen p.m_param_fetcher.m_pub_params_cache policy
            draw.key_seed draw.seal_seed
          ≡ ok key)
        × Linked p draw key suffix content r
  policy_ready p draw suffix policy content ck_template template m r e e' h =
      elim (Result-cases (
        cp_content_key_gen p.m_param_fetcher.m_pub_params_cache policy draw.key_seed
          draw.seal_seed)) [
            | inr (x, f) ↦ absurd (unfold produce_for_policy in ground arith)
            | inl (key, f) ↦
                elim (Result-cases
                  (ck_segments p draw (ndn.generic (until_nul policy)) key ck_template m)) [
                    | inr (x, g) ↦ absurd (unfold produce_for_policy in ground arith)
                    | inl (k, g) ↦ (
                      key,
                      f,
                      key_data-Linked p draw (ndn.generic (until_nul policy)) key k suffix content
                          ck_template template m r (ndn.is_segment-generic (until_nul policy)) g
                          (unfold produce_for_policy in ground arith),
                    )
                  ]
          ]

  -- `produce` for a policy: without parameters, or for parameters that are not of CP-ABE, it makes
  -- nothing. Otherwise it makes, under a content key that is encrypted for the policy, packets that
  -- are linked: the data packets are the segments of the encrypted content under the producer's
  -- prefix and the suffix, the key packets those of the key's block, and the name that the content
  -- gives for its key is that of the key packets.
  pub produce_for_policy-Linked :
      (p : Producer) (draw : Draw) (suffix : Name) (policy content : Bytes)
      (ck_template template : Template) (m : ℕ) (r : Produced)
      → produce_for_policy p draw suffix policy content ck_template template m ≡ ok r
      → Outcome p draw abe_type_cp_abe
          (λ key.
            cp_content_key_gen p.m_param_fetcher.m_pub_params_cache policy draw.key_seed
              draw.seal_seed
            ≡ ok key)
          suffix
          content
          r
  produce_for_policy-Linked p draw suffix policy content ck_template template m r h =
      elim (Bool-cases (bytes_beq p.m_param_fetcher.m_pub_params_cache.m_pub [])) [
        | inl e ↦ inl (unfold produce_for_policy in ground arith, inl ((bytes_beq_iff _ []).0 e))
        | inr e ↦ elim (Bool-cases (bytes_beq p.m_param_fetcher.m_abe_type abe_type_cp_abe)) [
          | inr e' ↦ inl (unfold produce_for_policy in ground arith, inr (ne_of_beq _ _ e'))
          | inl e' ↦
              let (key, made, linked) =
                policy_ready p draw suffix policy content ck_template template m r e e' h in
              inr (ne_of_beq _ _ e, (bytes_beq_iff _ abe_type_cp_abe).0 e', key, made, linked)
        ]
      ]

  attributes_ready :
      (p : Producer) (draw : Draw) (suffix : Name) (attributes : List Bytes) (content : Bytes)
      (ck_template template : Template) (m : ℕ) (r : Produced)
      → bytes_beq p.m_param_fetcher.m_pub_params_cache.m_pub [] ≡ false
      → bytes_beq p.m_param_fetcher.m_abe_type abe_type_kp_abe ≡ true
      → produce_for_attributes p draw suffix attributes content ck_template template m ≡ ok r
      → (key : ContentKey) × (kp_content_key_gen p.m_param_fetcher.m_pub_params_cache attributes
            draw.key_seed draw.seal_seed
          ≡ ok key)
        × Linked p draw key suffix content r
  attributes_ready p draw suffix attributes content ck_template template m r e e' h =
      elim (Result-cases (
        kp_content_key_gen p.m_param_fetcher.m_pub_params_cache attributes draw.key_seed
          draw.seal_seed)) [
            | inr (x, f) ↦ absurd (unfold produce_for_attributes in ground arith)
            | inl (key, f) ↦
                elim (Result-cases (
                  ck_segments p draw (attributes_component ndn.empty_component attributes) key
                    ck_template m)) [
                      | inr (x, g) ↦ absurd (unfold produce_for_attributes in ground arith)
                      | inl (k, g) ↦ (
                        key,
                        f,
                        key_data-Linked p draw (attributes_component ndn.empty_component attributes)
                            key k suffix content ck_template template m r
                            (attributes_component_kind attributes) g
                            (unfold produce_for_attributes in ground arith),
                      )
                    ]
          ]

  -- `produce` for attributes: without parameters, or for parameters that are not of KP-ABE, it makes
  -- nothing. Otherwise it makes, under a content key that is encrypted for the attributes, packets that
  -- are linked: the data packets are the segments of the encrypted content under the producer's
  -- prefix and the suffix, the key packets those of the key's block, and the name that the content
  -- gives for its key is that of the key packets.
  pub produce_for_attributes-Linked :
      (p : Producer) (draw : Draw) (suffix : Name) (attributes : List Bytes) (content : Bytes)
      (ck_template template : Template) (m : ℕ) (r : Produced)
      → produce_for_attributes p draw suffix attributes content ck_template template m ≡ ok r
      → Outcome p draw abe_type_kp_abe
          (λ key.
            kp_content_key_gen p.m_param_fetcher.m_pub_params_cache attributes draw.key_seed
              draw.seal_seed
            ≡ ok key)
          suffix
          content
          r
  produce_for_attributes-Linked p draw suffix attributes content ck_template template m r h =
      elim (Bool-cases (bytes_beq p.m_param_fetcher.m_pub_params_cache.m_pub [])) [
        | inl e ↦
            inl (unfold produce_for_attributes in ground arith, inl ((bytes_beq_iff _ []).0 e))
        | inr e ↦ elim (Bool-cases (bytes_beq p.m_param_fetcher.m_abe_type abe_type_kp_abe)) [
          | inr e' ↦ inl (unfold produce_for_attributes in ground arith, inr (ne_of_beq _ _ e'))
          | inl e' ↦
              let (key, made, linked) =
                attributes_ready p draw suffix attributes content ck_template template m r e e' h in
              inr (ne_of_beq _ _ e, (bytes_beq_iff _ abe_type_kp_abe).0 e', key, made, linked)
        ]
      ]
