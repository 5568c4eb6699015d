-- ===== src/Producer/Cache.antt =====
-- cache-producer: a producer that keeps its content keys.
pub mod Attributes
pub mod Keeping
pub mod Kept
pub mod Later
pub mod Sound
pub mod Texts
use nac_abe.Common.{ℕ, Bytes, bytes_eq, text, Option, none, some, List, [], ◌∷◌, ◌++◌}
use nac_abe.Common.Map.{Map, find, insert}
use nac_abe.Common.Result.{Result, ok, err}
use nac_abe.Common.Exec.{Exec, pure, modify, throw, lift, ◌>>=◌, ◌>>◌}
use nac_abe.Ndn.{Ndn}
use nac_abe.Packets.{Data}
use nac_abe.Security.{Security}
use nac_abe.OpenAbe.{OpenAbe}
use nac_abe.Algo.Content.{ContentKey}
use nac_abe.Producer.State.{Draw, Template, Producer}
use nac_abe.Producer.Produce.{
  KeyData, Produced, nothing, ck_data_gen_policy, ck_data_gen_attributes, produce_with_key,
  ck_object_name,
}

module _ ⦃ndn : Ndn⦄ where
  -- A content key and its segments, by the policy's text.
  abbrev pub KeyCache : Type 0
  KeyCache = Map Bytes (ContentKey × List Data)

module _ ⦃ndn : Ndn⦄ ⦃sec : Security⦄ where
  pub record CacheProducer : Type 0 where
    pub producer : Producer
    pub m_cp_key_cache : KeyCache
    pub m_kp_key_cache : KeyCache

  unfoldable pub clear_cache : CacheProducer → CacheProducer
  clear_cache p = record p { m_cp_key_cache = []; m_kp_key_cache = [] }

-- `ss << i << "|"` for each attribute
unfoldable pub attributes_text : List Bytes → Bytes
attributes_text [] = []
attributes_text (a ∷ rest) = a ++ text "|" ++ attributes_text rest

-- The default of every `maxSegmentSize`. The size that `produce` is given is not passed on.
abbrev pub default_segment_size : ℕ
default_segment_size = 1500

module _ ⦃ndn : Ndn⦄ ⦃sec : Security⦄ ⦃abe : OpenAbe⦄ where
  open ndn use {Name}

  -- The key that is cached, or the one that `ckDataGen` makes, where it makes one with segments.
  unfoldable pub cached_or_made : Option (ContentKey × List Data) → Result KeyData → Result KeyData
  cached_or_made (some k) made = ok (some k)
  cached_or_made none (ok (some (key, []))) = ok none
  cached_or_made none made = made

  -- The encryption under the key at hand.
  unfoldable pub produce_under :
      Producer → Draw → KeyData → Name → Bytes → Template → Result Produced
  produce_under p draw none data_name content template = ok nothing
  produce_under p draw (some (key, segments)) data_name content template =
      elim (ck_object_name segments) [
        | err e ↦ err e
        | ok name ↦
            elim (produce_with_key p draw key name data_name content template
              default_segment_size) [ err e ↦ err e | ok packets ↦ ok (packets, segments) ]
      ]

  abbrev pub keep : Bytes → KeyData → KeyCache → KeyCache
  keep k none cache = cache
  keep k (some e) cache = insert k e cache

  unfoldable pub cache_produce_for_policy :
      Draw → Name → Bytes → Bytes → Template → Template → ℕ → Exec CacheProducer Produced
  cache_produce_for_policy draw data_name access_policy content ck_template template
        max_segment_size p =
      (do
        k ← lift (
            cached_or_made (find access_policy p.m_cp_key_cache)
              (ck_data_gen_policy p.producer draw access_policy ck_template default_segment_size))
        modify (λ q. record q { m_cp_key_cache = keep access_policy k q.m_cp_key_cache })
        lift (produce_under p.producer draw k data_name content template))
        p

  unfoldable pub cache_produce_for_attributes :
      Draw → Name → List Bytes → Bytes → Template → Template → ℕ → Exec CacheProducer Produced
  cache_produce_for_attributes draw data_name attributes content ck_template template
        max_segment_size p =
      (do
        k ← lift (
            cached_or_made (find (attributes_text attributes) p.m_kp_key_cache)
              (ck_data_gen_attributes p.producer draw attributes ck_template default_segment_size))
        modify (λ q. record q {
          m_kp_key_cache = keep (attributes_text attributes) k q.m_kp_key_cache;
        })
        lift (produce_under p.producer draw k data_name content template))
        p
