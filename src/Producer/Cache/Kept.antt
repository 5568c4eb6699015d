-- ===== src/Producer/Cache/Kept.antt =====
-- cache-producer.cpp: repeated calls of `produce` for a policy.
use nac_abe.Common.{
  bytes_eq, ℕ, Bytes, ◌≡◌, sym, ap, ◌∙◌, ◌⊎◌, inl, inr, none, some, List, arith, Option-cases,
}
use nac_abe.Common.Map.{find, insert, find-insert_self}
use nac_abe.Common.Result.{Result, ok, err, Exception, Result-cases}
use nac_abe.Ndn.{Ndn}
use nac_abe.Packets.{Data}
use nac_abe.Security.{Security}
use nac_abe.OpenAbe.{OpenAbe}
use nac_abe.Algo.Content.{ContentKey}
use nac_abe.Producer.State.{Draw, Template, Producer}
use nac_abe.Producer.Produce.{
  KeyData, Produced, nothing, ck_data_gen_policy, ck_object_name, produce_with_key,
}
use nac_abe.Producer.Cache.{
  CacheProducer, cached_or_made, produce_under, keep, default_segment_size, KeyCache,
  cache_produce_for_policy,
}

module _ ⦃ndn : Ndn⦄ ⦃sec : Security⦄ ⦃abe : OpenAbe⦄ where
  open ndn use {Name}

  -- `produce` once the key has been found or made.
  pub produced_value :
      (draw : Draw) (n : Name) (policy content : Bytes) (ck_template template : Template) (m : ℕ)
      (p : CacheProducer) (k : KeyData)
      → cached_or_made
          (find policy p.m_cp_key_cache)
          (ck_data_gen_policy p.producer draw policy ck_template default_segment_size)
        ≡ ok k
      → cache_produce_for_policy draw n policy content ck_template template m p ≡ (
        produce_under p.producer draw k n content template,
        record p { m_cp_key_cache = keep policy k p.m_cp_key_cache },
      )
  unfolding cache_produce_for_policy
  produced_value draw n policy content ck_template template m p k e = rw e

  keep_found :
      (policy : Bytes) (e : ContentKey × List Data) (cache : KeyCache)
      → find policy cache ≡ some e
      → keep policy (some e) cache ≡ cache
  unfolding insert
  keep_found policy e cache h = rw h

  -- For a policy whose key is cached, `produce` makes no key and leaves the producer as it is: the
  -- content is encrypted under the cached key.
  pub cached_lem :
      (draw : Draw) (n : Name) (policy content : Bytes) (ck_template template : Template) (m : ℕ)
      (p : CacheProducer) (e : ContentKey × List Data)
      → find policy p.m_cp_key_cache ≡ some e
      → cache_produce_for_policy draw n policy content ck_template template m p
        ≡ (produce_under p.producer draw (some e) n content template, p)
  unfolding cached_or_made
  cached_lem draw n policy content ck_template template m p e h =
      produced_value draw n policy content ck_template template m p (some e) (rw h)
      ∙ ap
          (λ c. (
            produce_under p.producer draw (some e) n content template,
            record p { m_cp_key_cache = c },
          ))
          (keep_found policy e p.m_cp_key_cache h)

  -- The packets of the key come out as they were put in.
  pub under_lem :
      (p : Producer) (draw : Draw) (e : ContentKey × List Data) (n : Name) (content : Bytes)
      (template : Template) (r : Produced)
      → produce_under p draw (some e) n content template ≡ ok r
      → r.1 ≡ e.1
  unfolding produce_under
  under_lem p draw e n content template r h = elim (Result-cases (ck_object_name e.1)) [
    | inr (x, q) ↦ absurd (ground arith)
    | inl (name, q) ↦
        elim (Result-cases
          (produce_with_key p draw e.0 name n content template default_segment_size)) [
            | inr (x, q') ↦ absurd (ground arith)
            | inl (packets, q') ↦ ground arith
          ]
  ]

  abbrev after :
      Draw
      → Name
      → Bytes
      → Bytes
      → Template
      → CacheProducer
      → KeyData
      → Result Produced × CacheProducer
  after draw n policy content template p k = (
    produce_under p.producer draw k n content template,
    record p { m_cp_key_cache = keep policy k p.m_cp_key_cache },
  )

  pub thrown :
      (draw : Draw) (n : Name) (policy content : Bytes) (ck_template template : Template) (m : ℕ)
      (p : CacheProducer) (x : Exception)
      → cached_or_made
          (find policy p.m_cp_key_cache)
          (ck_data_gen_policy p.producer draw policy ck_template default_segment_size)
        ≡ err x
      → cache_produce_for_policy draw n policy content ck_template template m p ≡ (err x, p)
  unfolding cache_produce_for_policy
  thrown draw n policy content ck_template template m p x e = rw e

  -- Where `produce` for a policy makes packets, they are kept.
  pub first_kept :
      (draw : Draw) (n : Name) (policy content : Bytes) (ck_template template : Template) (m : ℕ)
      (p p' : CacheProducer) (r : Produced)
      → cache_produce_for_policy draw n policy content ck_template template m p ≡ (ok r, p')
      → (r ≡ nothing)
        ⊎ ((e : ContentKey × List Data) × (find policy p'.m_cp_key_cache ≡ some e) × (r.1 ≡ e.1))
  first_kept draw n policy content ck_template template m p p' r h =
      elim (Option-cases (find policy p.m_cp_key_cache)) [
        | inr (e, f) ↦
            let q = sym (cached_lem draw n policy content ck_template template m p e f) ∙ h in
            inr (
              e,
              ap (λ (x : Result Produced × CacheProducer). find policy x.1.m_cp_key_cache) (sym q)
                  ∙ f,
              under_lem p.producer draw e n content template r
                  (ap (λ (x : Result Produced × CacheProducer). x.0) q),
            )
        | inl f ↦
            elim (Result-cases (
              cached_or_made (find policy p.m_cp_key_cache)
                (ck_data_gen_policy p.producer draw policy ck_template default_segment_size))) [
                  | inr (x, g) ↦
                      absurd
                        (ground (arith, thrown draw n policy content ck_template template m p x g))
                  | inl (k, g) ↦
                      made k f (
                        sym (produced_value draw n policy content ck_template template m p k g) ∙ h)
                ]
      ]
    where
      made :
          (k : KeyData)
          → find policy p.m_cp_key_cache ≡ none
          → after draw n policy content template p k ≡ (ok r, p')
          → (r ≡ nothing)
            ⊎ ((e : ContentKey × List Data) × (find policy p'.m_cp_key_cache ≡ some e)
                × (r.1 ≡ e.1))
      made none f q = inl (unfold produce_under in ground arith)
      made (some e) f q = inr (
        e,
        ap (λ (x : Result Produced × CacheProducer). find policy x.1.m_cp_key_cache) (sym q)
            ∙ find-insert_self policy e p.m_cp_key_cache f,
        under_lem p.producer draw e n content template r
            (ap (λ (x : Result Produced × CacheProducer). x.0) q),
      )
