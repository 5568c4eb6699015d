-- ===== src/Producer/Cache/Later.antt =====
-- cache-producer.cpp: any calls of `produce`, one after another.
use nac_abe.Common.{
  bytes_eq, ℕ, Bytes, ◌≡◌, ◌≢◌, sym, ap, ◌∙◌, inl, inr, Option, none, some, List, [], ◌∷◌, arith,
  Bool-cases, bytes_beq_iff, ◌==◌,
}
use nac_abe.Common.Map.{find, find-insert}
use nac_abe.Common.Result.{Result, ok, Result-cases}
use nac_abe.Ndn.{Ndn}
use nac_abe.Packets.{Data}
use nac_abe.Security.{Security}
use nac_abe.OpenAbe.{OpenAbe}
use nac_abe.Algo.Content.{ContentKey}
use nac_abe.Producer.State.{Draw, Template}
use nac_abe.Producer.Produce.{
  KeyData, Produced, nothing, ck_data_gen_policy, ck_data_gen_attributes,
}
use nac_abe.Producer.Cache.{
  CacheProducer, KeyCache, cached_or_made, keep, default_segment_size, attributes_text,
  cache_produce_for_policy, cache_produce_for_attributes,
}
use nac_abe.Producer.Cache.Kept.{produced_value, thrown, cached_lem, under_lem, first_kept}
use nac_abe.Producer.Cache.Attributes.{
  produced_value as attributes_value, thrown as attributes_thrown,
}

module _ ⦃ndn : Ndn⦄ ⦃sec : Security⦄ ⦃abe : OpenAbe⦄ where
  open ndn use {Name}

  -- A call of either overload of `produce`.
  pub data Call : Type 0 where
    for_policy : Draw → Name → Bytes → Bytes → Template → Template → ℕ → Call
    for_attributes : Draw → Name → List Bytes → Bytes → Template → Template → ℕ → Call

  -- The producer after a call, whether it returned or threw.
  abbrev pub after_call : Call → CacheProducer → CacheProducer
  after_call (for_policy draw n policy content ck_template template m) p =
      (cache_produce_for_policy draw n policy content ck_template template m p).1
  after_call (for_attributes draw n attributes content ck_template template m) p =
      (cache_produce_for_attributes draw n attributes content ck_template template m p).1

  abbrev pub after : List Call → CacheProducer → CacheProducer
  after [] p = p
  after (call ∷ calls) p = after calls (after_call call p)

  keep_keeps :
      (policy other : Bytes) (e : ContentKey × List Data) (k : KeyData) (cache : KeyCache)
      → find policy cache ≡ some e
      → find policy (keep other k cache) ≡ some e
  keep_keeps policy other e none cache f = f
  keep_keeps policy other e (some e') cache f = elim (Bool-cases (other == policy)) [
    | inr b ↦ ground (arith, find-insert other policy e' cache)
    | inl b ↦
        find-insert other policy e' cache
        ∙ ground (arith, ap (λ q. find q cache) ((bytes_beq_iff other policy).0 b))
  ]

  abbrev kept : Bytes → Result Produced × CacheProducer → Option (ContentKey × List Data)
  kept policy x = find policy x.1.m_cp_key_cache

  call-keeps :
      (policy : Bytes) (e : ContentKey × List Data) (call : Call) (p : CacheProducer)
      → find policy p.m_cp_key_cache ≡ some e
      → find policy (after_call call p).m_cp_key_cache ≡ some e
  call-keeps policy e (for_policy draw n other content ck_template template m) p f =
      elim (Result-cases (
        cached_or_made (find other p.m_cp_key_cache)
          (ck_data_gen_policy p.producer draw other ck_template default_segment_size))) [
            | inr (x, g) ↦
                ap (kept policy) (thrown draw n other content ck_template template m p x g) ∙ f
            | inl (k, g) ↦
                ap (kept policy) (produced_value draw n other content ck_template template m p k g)
                ∙ keep_keeps policy other e k p.m_cp_key_cache f
          ]
  call-keeps policy e (for_attributes draw n attributes content ck_template template m) p f =
      elim (Result-cases (
        cached_or_made (find (attributes_text attributes) p.m_kp_key_cache)
          (ck_data_gen_attributes p.producer draw attributes ck_template default_segment_size))) [
            | inr (x, g) ↦
                ap (kept policy)
                  (attributes_thrown draw n attributes content ck_template template m p x g)
                ∙ f
            | inl (k, g) ↦
                ap (kept policy)
                  (attributes_value draw n attributes content ck_template template m p k g)
                ∙ f
          ]

  calls-keep :
      (policy : Bytes) (e : ContentKey × List Data) (calls : List Call) (p : CacheProducer)
      → find policy p.m_cp_key_cache ≡ some e
      → find policy (after calls p).m_cp_key_cache ≡ some e
  calls-keep policy e [] p f = f
  calls-keep policy e (call ∷ calls) p f =
      calls-keep policy e calls (after_call call p) (call-keeps policy e call p f)

  -- Once `produce` has made packets for a policy, every later call for that policy which returns has
  -- the same packets of the key, whatever the data and the draws, and leaves the producer as it is,
  -- also after any other calls of `produce` in between, for policies or for attributes. The cache is
  -- not cleared.
  pub same_key_packets :
      (draw draw' : Draw) (n n' : Name) (policy content content' : Bytes)
      (ck_template template ck_template' template' : Template) (m m' : ℕ) (calls : List Call)
      (p p' p'' : CacheProducer) (r r' : Produced)
      → cache_produce_for_policy draw n policy content ck_template template m p ≡ (ok r, p')
      → r ≢ nothing
      → cache_produce_for_policy draw' n' policy content' ck_template' template' m' (after calls p')
        ≡ (ok r', p'')
      → (r'.1 ≡ r.1) × (p'' ≡ after calls p')
  same_key_packets draw draw' n n' policy content content' ck_template template ck_template'
        template' m m' calls p p' p'' r r' h some_packets h' =
      elim (first_kept draw n policy content ck_template template m p p' r h) [
        | inl e ↦ absurd (some_packets e)
        | inr (e, f, g) ↦
            let q =
              sym (
                cached_lem draw' n' policy content' ck_template' template' m' (after calls p') e
                  (calls-keep policy e calls p' f))
              ∙ h' in
            (
              under_lem (after calls p').producer draw' e n' content' template' r'
                    (ap (λ (x : Result Produced × CacheProducer). x.0) q)
                  ∙ sym g,
              sym (ap (λ (x : Result Produced × CacheProducer). x.1) q),
            )
      ]
