-- ===== src/Producer/Cache/Sound.antt =====
-- cache-producer.cpp: the keys that are kept for policies, and the packets that are made under them.
use mathlib.Core.Path.{subst}
use nac_abe.Common.{
  bytes_eq, ℕ, Bytes, ◌≡◌, sym, ap, ◌∙◌, ◌⊎◌, inl, inr, some, List, [], arith, Bool-cases,
  bytes_beq,
}
use nac_abe.Common.Map.{find}
use nac_abe.Common.Text.{until_nul}
use nac_abe.Common.Result.{Result, ok, Result-cases}
use nac_abe.Constants.{abe_type_cp_abe}
use nac_abe.Ndn.{Ndn}
use nac_abe.Packets.{Data}
use nac_abe.Security.{Security}
use nac_abe.OpenAbe.{OpenAbe}
use nac_abe.Algo.Keys.{PublicParams}
use nac_abe.Algo.Content.{ContentKey}
use nac_abe.Algo.Support.{cp_content_key_gen}
use nac_abe.Producer.State.{Draw, Template, Producer}
use nac_abe.Producer.Produce.{KeyData, Produced, nothing, ck_data_gen_policy, ck_segments}
use nac_abe.Producer.Produce.Links.{AreKeyPackets, Linked}
use nac_abe.Producer.Cache.{
  CacheProducer, KeyCache, cached_or_made, default_segment_size, cache_produce_for_policy,
}
use nac_abe.Producer.Cache.Keeping.{
  AreReady, keep-AreReady, found-Ready, produced-Linked, ck_segments-AreKeyPackets,
}
use nac_abe.Producer.Cache.Kept.{produced_value, thrown}

module _ ⦃ndn : Ndn⦄ ⦃sec : Security⦄ ⦃abe : OpenAbe⦄ where
  open ndn use {Name}

  -- A content key that is encrypted for the policy, with its packets.
  pub record IsReady (params : PublicParams) (policy : Bytes) (e : ContentKey × List Data)
      : Type 0 where
    pub key_seed : ℕ
    pub seal_seed : ℕ
    pub made : cp_content_key_gen params policy key_seed seal_seed ≡ ok e.0
    pub packets : AreKeyPackets e.0 e.1

  -- What is kept for a policy is a key that is encrypted for it.
  abbrev pub IsSound : PublicParams → KeyCache → Type 0
  IsSound params cache = AreReady (IsReady params) cache

  segments-IsReady :
      (p : Producer) (draw : Draw) (policy : Bytes) (template : Template) (m : ℕ) (key : ContentKey)
      (e : ContentKey × List Data)
      → cp_content_key_gen p.m_param_fetcher.m_pub_params_cache policy draw.key_seed draw.seal_seed
        ≡ ok key
      → ck_segments p draw (ndn.generic (until_nul policy)) key template m ≡ ok (some e)
      → IsReady p.m_param_fetcher.m_pub_params_cache policy e
  segments-IsReady p draw policy template m key e f h =
      let (same, packets) =
        ck_segments-AreKeyPackets p draw (ndn.generic (until_nul policy)) template m key e
          (ndn.is_segment-generic (until_nul policy)) h in
      record {
        key_seed = draw.key_seed;
        seal_seed = draw.seal_seed;
        made = f ∙ ap ok same;
        packets = packets;
      }

  gen-IsReady :
      (p : Producer) (draw : Draw) (policy : Bytes) (template : Template) (m : ℕ)
      (e : ContentKey × List Data)
      → ck_data_gen_policy p draw policy template m ≡ ok (some e)
      → IsReady p.m_param_fetcher.m_pub_params_cache policy e
  gen-IsReady p draw policy template m e h =
      elim (Bool-cases (bytes_beq p.m_param_fetcher.m_pub_params_cache.m_pub [])) [
        | inl b ↦ absurd (unfold ck_data_gen_policy in ground arith)
        | inr b ↦ elim (Bool-cases (bytes_beq p.m_param_fetcher.m_abe_type abe_type_cp_abe)) [
          | inr b' ↦ absurd (unfold ck_data_gen_policy in ground arith)
          | inl b' ↦
              elim (Result-cases (
                cp_content_key_gen p.m_param_fetcher.m_pub_params_cache policy draw.key_seed
                  draw.seal_seed)) [
                    | inr (x, f) ↦ absurd (unfold ck_data_gen_policy in ground arith)
                    | inl (key, f) ↦
                        segments-IsReady p draw policy template m key e f
                          (unfold ck_data_gen_policy in ground arith)
                  ]
        ]
      ]

  abbrev params_of : CacheProducer → PublicParams
  params_of p = p.producer.m_param_fetcher.m_pub_params_cache

  -- What `produce` for a policy of a producer that keeps its keys comes to, if it returns: nothing,
  -- or linked packets, under a content key that is encrypted for that policy, whether the key is new
  -- or kept. What is kept for each policy stays a key that is encrypted for it.
  pub cache_produce_for_policy-Linked :
      (draw : Draw) (n : Name) (policy content : Bytes) (ck_template template : Template) (m : ℕ)
      (p p' : CacheProducer) (r : Produced)
      → IsSound p.producer.m_param_fetcher.m_pub_params_cache p.m_cp_key_cache
      → cache_produce_for_policy draw n policy content ck_template template m p ≡ (ok r, p')
      → IsSound p.producer.m_param_fetcher.m_pub_params_cache p'.m_cp_key_cache
        × ((r ≡ nothing)
            ⊎ ((e : ContentKey × List Data) × IsReady p.producer.m_param_fetcher.m_pub_params_cache
                  policy e
                × Linked p.producer draw e.0 n content r))
  cache_produce_for_policy-Linked draw n policy content ck_template template m p p' r sound h =
      elim (Result-cases (
        cached_or_made (find policy p.m_cp_key_cache)
          (ck_data_gen_policy p.producer draw policy ck_template default_segment_size))) [
            | inr (x, g) ↦
                absurd (ground (arith, thrown draw n policy content ck_template template m p x g))
            | inl (k, g) ↦
                let q =
                  sym (produced_value draw n policy content ck_template template m p k g) ∙ h in
                (
                  subst
                      (λ (x : Result Produced × CacheProducer).
                        IsSound (params_of p) x.1.m_cp_key_cache)
                      q
                      (keep-AreReady (IsReady (params_of p)) policy k p.m_cp_key_cache (ready k g)
                        sound),
                  produced-Linked (IsReady (params_of p)) p.producer draw policy k n content
                      template r (λ e (s : IsReady (params_of p) policy e). s.packets) (ready k g)
                      (ap (λ (x : Result Produced × CacheProducer). x.0) q),
                )
          ]
    where
      ready :
          (k : KeyData)
          → cached_or_made
              (find policy p.m_cp_key_cache)
              (ck_data_gen_policy p.producer draw policy ck_template default_segment_size)
            ≡ ok k
          → (e : ContentKey × List Data) → k ≡ some e
          → IsReady (params_of p) policy e
      ready k g =
          found-Ready (IsReady (params_of p)) policy p.m_cp_key_cache
            (ck_data_gen_policy p.producer draw policy ck_template default_segment_size) k sound
            (gen-IsReady p.producer draw policy ck_template default_segment_size) g
