-- ===== src/Producer/Cache/Attributes.antt =====
-- cache-producer.cpp: the keys that are kept for attributes, and the packets that are made under
-- them. Lists of attributes with one text, such as `a|b` and `a`, `b`, share a key.
use mathlib.Core.Path.{subst}
use nac_abe.Common.{
  bytes_eq, ℕ, Bytes, ◌≡◌, refl, sym, ap, ◌∙◌, ◌⊎◌, inl, inr, some, List, [], arith, Bool-cases,
  bytes_beq,
}
use nac_abe.Common.Map.{find}
use nac_abe.Common.Result.{Result, ok, err, Exception, Result-cases}
use nac_abe.Constants.{abe_type_kp_abe}
use nac_abe.Ndn.{Ndn}
use nac_abe.Packets.{Data}
use nac_abe.Security.{Security}
use nac_abe.OpenAbe.{OpenAbe}
use nac_abe.Algo.Keys.{PublicParams}
use nac_abe.Algo.Content.{ContentKey}
use nac_abe.Algo.Support.{kp_content_key_gen}
use nac_abe.Producer.State.{Draw, Template, Producer}
use nac_abe.Producer.Produce.{
  KeyData, Produced, nothing, ck_data_gen_attributes, ck_segments, attributes_component,
}
use nac_abe.Producer.Produce.Links.{AreKeyPackets, Linked, attributes_component_kind}
use nac_abe.Producer.Cache.{
  CacheProducer, KeyCache, cached_or_made, produce_under, keep, default_segment_size,
  attributes_text, cache_produce_for_attributes,
}
use nac_abe.Producer.Cache.Texts.{kp_content_key_gen_text}
use nac_abe.Producer.Cache.Keeping.{
  AreReady, keep-AreReady, found-Ready, produced-Linked, ck_segments-AreKeyPackets,
}

module _ ⦃ndn : Ndn⦄ ⦃sec : Security⦄ ⦃abe : OpenAbe⦄ where
  open ndn use {Name, empty_component}

  -- A content key that is encrypted for the attributes, with its packets.
  pub record IsReadyFor (params : PublicParams) (attributes : List Bytes)
      (e : ContentKey × List Data) : Type 0 where
    pub key_seed : ℕ
    pub seal_seed : ℕ
    pub made : kp_content_key_gen params attributes key_seed seal_seed ≡ ok e.0
    pub packets : AreKeyPackets e.0 e.1

  -- It is encrypted for every list of attributes with that text.
  abbrev pub IsReadyUnder : PublicParams → Bytes → ContentKey × List Data → Type 0
  IsReadyUnder params by e =
      AreKeyPackets e.0 e.1
      × ((attributes : List Bytes)
          → attributes_text attributes ≡ by
          → IsReadyFor params attributes e)

  -- What is kept under a text is a key that is encrypted for every list of attributes with it.
  abbrev pub AreSoundFor : PublicParams → KeyCache → Type 0
  AreSoundFor params cache = AreReady (IsReadyUnder params) cache

  segments-IsReadyUnder :
      (p : Producer) (draw : Draw) (attributes : List Bytes) (template : Template) (m : ℕ)
      (key : ContentKey) (e : ContentKey × List Data)
      → kp_content_key_gen p.m_param_fetcher.m_pub_params_cache attributes draw.key_seed
          draw.seal_seed
        ≡ ok key
      → ck_segments p draw (attributes_component empty_component attributes) key template m
        ≡ ok (some e)
      → IsReadyUnder p.m_param_fetcher.m_pub_params_cache (attributes_text attributes) e
  segments-IsReadyUnder p draw attributes template m key e f h =
      let (same, packets) =
        ck_segments-AreKeyPackets p draw (attributes_component empty_component attributes) template
          m key e (attributes_component_kind attributes) h in
      (
        packets,
        λ others t. record {
          key_seed = draw.key_seed;
          seal_seed = draw.seal_seed;
          made =
              kp_content_key_gen_text p.m_param_fetcher.m_pub_params_cache others attributes
                draw.key_seed draw.seal_seed t
              ∙ f
              ∙ ap ok same;
          packets = packets;
        },
      )

  gen-IsReadyUnder :
      (p : Producer) (draw : Draw) (attributes : List Bytes) (template : Template) (m : ℕ)
      (e : ContentKey × List Data)
      → ck_data_gen_attributes p draw attributes template m ≡ ok (some e)
      → IsReadyUnder p.m_param_fetcher.m_pub_params_cache (attributes_text attributes) e
  gen-IsReadyUnder p draw attributes template m e h =
      elim (Bool-cases (bytes_beq p.m_param_fetcher.m_pub_params_cache.m_pub [])) [
        | inl b ↦ absurd (unfold ck_data_gen_attributes in ground arith)
        | inr b ↦ elim (Bool-cases (bytes_beq p.m_param_fetcher.m_abe_type abe_type_kp_abe)) [
          | inr b' ↦ absurd (unfold ck_data_gen_attributes in ground arith)
          | inl b' ↦
              elim (Result-cases (
                kp_content_key_gen p.m_param_fetcher.m_pub_params_cache attributes draw.key_seed
                  draw.seal_seed)) [
                    | inr (x, f) ↦ absurd (unfold ck_data_gen_attributes in ground arith)
                    | inl (key, f) ↦
                        segments-IsReadyUnder p draw attributes template m key e f
                          (unfold ck_data_gen_attributes in ground arith)
                  ]
        ]
      ]

  pub produced_value :
      (draw : Draw) (n : Name) (attributes : List Bytes) (content : Bytes)
      (ck_template template : Template) (m : ℕ) (p : CacheProducer) (k : KeyData)
      → cached_or_made
          (find (attributes_text attributes) p.m_kp_key_cache)
          (ck_data_gen_attributes p.producer draw attributes ck_template default_segment_size)
        ≡ ok k
      → cache_produce_for_attributes draw n attributes content ck_template template m p ≡ (
        produce_under p.producer draw k n content template,
        record p { m_kp_key_cache = keep (attributes_text attributes) k p.m_kp_key_cache },
      )
  unfolding cache_produce_for_attributes
  produced_value draw n attributes content ck_template template m p k e = rw e

  pub thrown :
      (draw : Draw) (n : Name) (attributes : List Bytes) (content : Bytes)
      (ck_template template : Template) (m : ℕ) (p : CacheProducer) (x : Exception)
      → cached_or_made
          (find (attributes_text attributes) p.m_kp_key_cache)
          (ck_data_gen_attributes p.producer draw attributes ck_template default_segment_size)
        ≡ err x
      → cache_produce_for_attributes draw n attributes content ck_template template m p ≡ (err x, p)
  unfolding cache_produce_for_attributes
  thrown draw n attributes content ck_template template m p x e = rw e

  abbrev params_of : CacheProducer → PublicParams
  params_of p = p.producer.m_param_fetcher.m_pub_params_cache

  -- What `produce` for attributes of a producer that keeps its keys comes to, if it returns: nothing,
  -- or linked packets, under a content key that is encrypted for those very attributes, whether the
  -- key is new or kept, although a key is kept by the attributes' joined text, which other lists of
  -- attributes can share. What is kept under each text stays a key that is encrypted for every list
  -- of attributes with that text.
  pub cache_produce_for_attributes-Linked :
      (draw : Draw) (n : Name) (attributes : List Bytes) (content : Bytes)
      (ck_template template : Template) (m : ℕ) (p p' : CacheProducer) (r : Produced)
      → AreSoundFor p.producer.m_param_fetcher.m_pub_params_cache p.m_kp_key_cache
      → cache_produce_for_attributes draw n attributes content ck_template template m p ≡ (ok r, p')
      → AreSoundFor p.producer.m_param_fetcher.m_pub_params_cache p'.m_kp_key_cache
        × ((r ≡ nothing)
            ⊎ ((e : ContentKey × List Data) × IsReadyFor
                  p.producer.m_param_fetcher.m_pub_params_cache attributes e
                × Linked p.producer draw e.0 n content r))
  cache_produce_for_attributes-Linked draw n attributes content ck_template template m p p' r sound
        h =
      elim (Result-cases (
        cached_or_made (find (attributes_text attributes) p.m_kp_key_cache)
          (ck_data_gen_attributes p.producer draw attributes ck_template default_segment_size))) [
            | inr (x, g) ↦
                absurd
                  (ground (arith, thrown draw n attributes content ck_template template m p x g))
            | inl (k, g) ↦
                let q =
                  sym (produced_value draw n attributes content ck_template template m p k g) ∙ h in
                (
                  subst
                      (λ (x : Result Produced × CacheProducer).
                        AreSoundFor (params_of p) x.1.m_kp_key_cache)
                      q
                      (keep-AreReady (IsReadyUnder (params_of p)) (attributes_text attributes) k
                        p.m_kp_key_cache (ready k g) sound),
                  outcome (
                      produced-Linked (IsReadyUnder (params_of p)) p.producer draw
                        (attributes_text attributes) k n content template r
                        (λ e (s : IsReadyUnder (params_of p) (attributes_text attributes) e). s.0)
                        (ready k g) (ap (λ (x : Result Produced × CacheProducer). x.0) q)),
                )
          ]
    where
      ready :
          (k : KeyData)
          → cached_or_made
              (find (attributes_text attributes) p.m_kp_key_cache)
              (ck_data_gen_attributes p.producer draw attributes ck_template default_segment_size)
            ≡ ok k
          → (e : ContentKey × List Data) → k ≡ some e
          → IsReadyUnder (params_of p) (attributes_text attributes) e
      ready k g =
          found-Ready (IsReadyUnder (params_of p)) (attributes_text attributes) p.m_kp_key_cache
            (ck_data_gen_attributes p.producer draw attributes ck_template default_segment_size) k
            sound (gen-IsReadyUnder p.producer draw attributes ck_template default_segment_size) g

      outcome :
          ((r ≡ nothing)
            ⊎ ((e : ContentKey × List Data) × IsReadyUnder
                  (params_of p)
                  (attributes_text attributes)
                  e
                × Linked p.producer draw e.0 n content r))
          → (r ≡ nothing)
            ⊎ ((e : ContentKey × List Data) × IsReadyFor (params_of p) attributes e
                × Linked p.producer draw e.0 n content r)
      outcome (inl q) = inl q
      outcome (inr (e, s, l)) = inr (e, s.1 attributes refl, l)
