-- ===== src/Producer/Cache/Keeping.antt =====
-- cache-producer.cpp: what keeping the keys comes to, whatever a key has to be ready for.
use mathlib.Core.Path.{subst}
use nac_abe.Common.{
  bytes_eq, false, ℕ, Bytes, ◌≡◌, refl, ap, ◌∙◌, ◌⊎◌, inl, inr, none, some, List, [], ◌∷◌, arith,
  Option-cases, Bool-cases, bytes_beq_iff, ◌==◌,
}
use nac_abe.Common.Map.{find, find-insert}
use nac_abe.Common.Result.{Result, ok, err, Result-cases}
use nac_abe.Ndn.{Ndn}
use nac_abe.Packets.{Data}
use nac_abe.Security.{Security}
use nac_abe.OpenAbe.{OpenAbe}
use nac_abe.Algo.Content.{ContentKey, make_ck_content}
use nac_abe.Producer.State.{Draw, Template, Producer}
use nac_abe.Producer.Produce.{
  KeyData, Produced, nothing, ck_data_name, ck_segments, ck_object_name, produce_with_key,
  produce_with_key_data,
}
use nac_abe.Producer.Produce.Links.{
  AreKeyPackets, Linked, ck_data_name_last, segments_Linked, segment-AreSegments,
}
use nac_abe.Producer.Cache.{KeyCache, cached_or_made, produce_under, keep, default_segment_size}

module _ ⦃ndn : Ndn⦄ ⦃sec : Security⦄ ⦃abe : OpenAbe⦄ where
  open ndn use {Name, Component}

  -- `produce` under a key is that of the plain producer with the default size.
  under_value :
      (p : Producer) (draw : Draw) (e : ContentKey × List Data) (n : Name) (content : Bytes)
      (template : Template)
      → produce_with_key_data p draw (some e) n content template default_segment_size
        ≡ produce_under p draw (some e) n content template
  unfolding produce_with_key_data produce_under
  under_value p draw e n content template = elim (Result-cases (ck_object_name e.1)) [
    | inr (x, q) ↦ ground arith
    | inl (name, q) ↦
        elim (Result-cases
          (produce_with_key p draw e.0 name n content template default_segment_size)) [
            | inr (x, q') ↦ ground arith
            | inl (packets, q') ↦ ground arith
          ]
  ]

  made_value :
      (made : Result KeyData) (e : ContentKey × List Data)
      → cached_or_made none made ≡ ok (some e)
      → made ≡ ok (some e)
  unfolding cached_or_made
  made_value (err x) e h = h
  made_value (ok none) e h = h
  made_value (ok (some (key, []))) e h = absurd (ground arith)
  made_value (ok (some (key, d ∷ ds))) e h = h

  -- The segments that `ckDataGen` makes of a content key are that key's packets.
  pub ck_segments-AreKeyPackets :
      (p : Producer) (draw : Draw) (by : Component) (template : Template) (m : ℕ) (key : ContentKey)
      (e : ContentKey × List Data)
      → ndn.is_segment by ≡ false
      → ck_segments p draw by key template m ≡ ok (some e)
      → (key ≡ e.0) × AreKeyPackets e.0 e.1
  ck_segments-AreKeyPackets p draw by template m key e s h =
      elim (Result-cases (ck_data_name p draw by)) [
        | inr (x, g) ↦ absurd (unfold ck_segments in ground arith)
        | inl (name, g) ↦
            let q : (
              key,
              sec.segment (ndn.wire (make_ck_content key)) name m template.freshness
                  template.content_type,
            )
                ≡ e =
              unfold ck_segments in ground arith in
            subst (λ (x : ContentKey × List Data). (key ≡ x.0) × AreKeyPackets x.0 x.1) q
              (
                refl,
                record {
                  object = name;
                  last = ck_data_name_last p draw by name s g;
                  are =
                      segment-AreSegments (ndn.wire (make_ck_content key)) name m template.freshness
                        template.content_type;
                },
              )
      ]

  pub under-Linked :
      (p : Producer) (draw : Draw) (e : ContentKey × List Data) (n : Name) (content : Bytes)
      (template : Template) (r : Produced)
      → AreKeyPackets e.0 e.1
      → produce_under p draw (some e) n content template ≡ ok r
      → Linked p draw e.0 n content r
  under-Linked p draw e n content template r packets h =
      segments_Linked p draw e.0 packets n content template default_segment_size r
        (under_value p draw e n content template ∙ h)

  module _ (Ready : Bytes → ContentKey × List Data → Type 0) where
    -- What is kept under a text is ready for it.
    abbrev pub AreReady : KeyCache → Type 0
    AreReady cache = (by : Bytes) (e : ContentKey × List Data) → find by cache ≡ some e → Ready by e

    pub keep-AreReady :
        (by : Bytes) (k : KeyData) (cache : KeyCache)
        → ((e : ContentKey × List Data) → k ≡ some e → Ready by e)
        → AreReady cache
        → AreReady (keep by k cache)
    keep-AreReady by none cache ready kept other e' h = kept other e' h
    keep-AreReady by (some e) cache ready kept other e' h = elim (Bool-cases (by == other)) [
      | inr b ↦ kept other e' (ground (arith, find-insert by other e cache))
      | inl b ↦ elim (Option-cases (find by cache)) [
        | inr (e0, f) ↦
            kept other e' (ground (arith, find-insert by other e cache, bytes_beq_iff by other))
        | inl f ↦
            subst (λ q. Ready q e') ((bytes_beq_iff by other).0 b)
              (ready e' (ground (arith, find-insert by other e cache)))
      ]
    ]

    -- The key at hand is ready, kept or new, where a new one is.
    pub found-Ready :
        (by : Bytes) (cache : KeyCache) (made : Result KeyData) (k : KeyData)
        → AreReady cache
        → ((e : ContentKey × List Data) → made ≡ ok (some e) → Ready by e)
        → cached_or_made (find by cache) made ≡ ok k
        → (e : ContentKey × List Data) → k ≡ some e
        → Ready by e
    found-Ready by cache made k kept new h e q = elim (Option-cases (find by cache)) [
      | inr (e0, f) ↦ kept by e (unfold cached_or_made in ground arith)
      | inl f ↦ new e (made_value made e (subst (λ o. cached_or_made o made ≡ ok k) f h ∙ ap ok q))
    ]

    pub produced-Linked :
        (p : Producer) (draw : Draw) (by : Bytes) (k : KeyData) (n : Name) (content : Bytes)
        (template : Template) (r : Produced)
        → ((e : ContentKey × List Data) → Ready by e → AreKeyPackets e.0 e.1)
        → ((e : ContentKey × List Data) → k ≡ some e → Ready by e)
        → produce_under p draw k n content template ≡ ok r
        → (r ≡ nothing)
          ⊎ ((e : ContentKey × List Data) × Ready by e × Linked p draw e.0 n content r)
    produced-Linked p draw by none n content template r packets ready u =
        inl (unfold produce_under in ground arith)
    produced-Linked p draw by (some e) n content template r packets ready u =
        inr
          (e, ready e refl, under-Linked p draw e n content template r (packets e (ready e refl)) u)
