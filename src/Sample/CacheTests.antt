-- ===== src/Sample/CacheTests.antt =====
-- The theorem on cached content keys at concrete inputs.
use nac_abe.Common.{◌⊎◌, bytes_eq, text, ◌≡◌, ◌≢◌, refl, ap, List, [], ◌∷◌}
use nac_abe.Common.Text.{until_nul}
use nac_abe.Common.Result.{Result, ok, err}
use nac_abe.Common.Map.{find, insert}
use nac_abe.Packets.{Data}
use nac_abe.Algo.Context.{content_key_gen, encrypt, c_buffer, to_u32}
use nac_abe.Algo.Support.{
  cp_content_key_gen, kp_content_key_gen, policy_string, join_bars, pop_back,
}
use nac_abe.Producer.Decimal.{digits, to_string}
use nac_abe.Producer.State.{default_template}
use nac_abe.Producer.Produce.{
  Produced, nothing, ck_data_gen_policy, ck_data_gen_attributes, attributes_component, ck_segments,
  ck_data_name, produce_with_key, ck_object_name, get_ck_encrypted_data,
}
use nac_abe.Producer.Cache.{
  CacheProducer, cached_or_made, produce_under, cache_produce_for_policy,
  cache_produce_for_attributes, attributes_text,
}
use nac_abe.Producer.Cache.Later.{Call, for_policy, for_attributes, after, same_key_packets}
use nac_abe.Algo.Content.{ContentKey}
use nac_abe.Producer.Produce.Links.{Linked}
use nac_abe.Producer.Cache.Attributes.{AreSoundFor, IsReadyFor, cache_produce_for_attributes-Linked}
use nac_abe.Producer.Cache.Sound.{IsSound, IsReady, cache_produce_for_policy-Linked}
use nac_abe.Sample.Codec.{frames, frame, body}
use nac_abe.Sample.Names.{toy_ndn}
use nac_abe.Sample.Certificates.{toy_security}
use nac_abe.Sample.Abe.{toy_abe, bounded, sealed_of}
use nac_abe.Sample.ProducerTests.{cp_producer, kp_producer, lamp, kitchen, draw}

cons-ne-nil : (d : Data) (ds : List Data) → d ∷ ds ≢ []
cons-ne-nil d ds e = cc

abbrev empty : CacheProducer
empty = record { producer = cp_producer; m_cp_key_cache = []; m_kp_key_cache = [] }

abbrev packets_of : Result Produced → Produced
packets_of r = elim r [ ok p ↦ p | err e ↦ nothing ]

abbrev first : Result Produced × CacheProducer
first =
    cache_produce_for_policy draw lamp (text "cook") (1 ∷ 2 ∷ []) default_template default_template
      8000 empty

-- calls in between, one of which makes a key for another policy
abbrev others : List Call
others =
    for_policy draw lamp (text "owner") (4 ∷ []) default_template default_template 8000
    ∷ for_attributes draw lamp (text "cook" ∷ []) (4 ∷ []) default_template default_template 8000
    ∷ []

abbrev second : Result Produced × CacheProducer
second =
    cache_produce_for_policy (record draw { key_seed = 5 }) kitchen (text "cook") (3 ∷ [])
      default_template default_template 8000 (after others first.1)

same_key_packets_example :
    ((packets_of second.0).1 ≡ (packets_of first.0).1) × (second.1 ≡ after others first.1)
unfolding find insert cache_produce_for_policy cache_produce_for_attributes cached_or_made
    produce_under ck_data_gen_policy ck_data_gen_attributes cp_content_key_gen content_key_gen
    c_buffer to_u32 ck_segments ck_data_name produce_with_key ck_object_name encrypt
    get_ck_encrypted_data to_string digits until_nul bounded sealed_of frames frame body
same_key_packets_example =
    same_key_packets draw (record draw { key_seed = 5 }) lamp kitchen (text "cook") (1 ∷ 2 ∷ [])
      (3 ∷ []) default_template default_template default_template default_template 8000 8000 others
      empty first.1 second.1 (packets_of first.0) (packets_of second.0) refl
      (λ e. cons-ne-nil _ _ (ap (λ (x : Produced). x.1) e)) refl

empty-IsSound : IsSound cp_producer.m_param_fetcher.m_pub_params_cache []
unfolding find
empty-IsSound policy e h = cc

cache_produce_for_policy-Linked_example :
    IsSound cp_producer.m_param_fetcher.m_pub_params_cache first.1.m_cp_key_cache
    × ((packets_of first.0 ≡ nothing)
        ⊎ ((e : ContentKey × List Data) × IsReady cp_producer.m_param_fetcher.m_pub_params_cache
              (text "cook")
              e
            × Linked cp_producer draw e.0 lamp (1 ∷ 2 ∷ []) (packets_of first.0)))
unfolding find insert cache_produce_for_policy cached_or_made produce_under ck_data_gen_policy
    cp_content_key_gen content_key_gen c_buffer to_u32 ck_segments ck_data_name produce_with_key
    ck_object_name encrypt get_ck_encrypted_data to_string digits until_nul bounded sealed_of frames
    frame body
cache_produce_for_policy-Linked_example =
    cache_produce_for_policy-Linked draw lamp (text "cook") (1 ∷ 2 ∷ []) default_template
      default_template 8000 empty first.1 (packets_of first.0) empty-IsSound refl

abbrev empty_kp : CacheProducer
empty_kp = record { producer = kp_producer; m_cp_key_cache = []; m_kp_key_cache = [] }

abbrev two_attributes : Result Produced × CacheProducer
two_attributes =
    cache_produce_for_attributes draw lamp (text "cook" ∷ text "owner" ∷ []) (1 ∷ 2 ∷ [])
      default_template default_template 8000 empty_kp

-- one attribute, of the same text
abbrev joined_attribute : Result Produced × CacheProducer
joined_attribute =
    cache_produce_for_attributes (record draw { key_seed = 5 }) kitchen (text "cook|owner" ∷ [])
      (3 ∷ []) default_template default_template 8000 two_attributes.1

no_key-AreSoundFor : AreSoundFor kp_producer.m_param_fetcher.m_pub_params_cache []
unfolding find
no_key-AreSoundFor by e h = cc

cache_produce_for_attributes-Linked_example :
    AreSoundFor kp_producer.m_param_fetcher.m_pub_params_cache joined_attribute.1.m_kp_key_cache
    × ((packets_of joined_attribute.0 ≡ nothing)
        ⊎ ((e : ContentKey × List Data) × IsReadyFor kp_producer.m_param_fetcher.m_pub_params_cache
              (text "cook|owner" ∷ [])
              e
            × Linked kp_producer
                (record draw { key_seed = 5 })
                e.0
                kitchen
                (3 ∷ [])
                (packets_of joined_attribute.0)))
unfolding find insert cache_produce_for_attributes attributes_text cached_or_made produce_under
    ck_data_gen_attributes attributes_component policy_string join_bars pop_back kp_content_key_gen
    content_key_gen c_buffer to_u32 ck_segments ck_data_name produce_with_key ck_object_name encrypt
    get_ck_encrypted_data to_string digits until_nul bounded sealed_of frames frame body
cache_produce_for_attributes-Linked_example =
    cache_produce_for_attributes-Linked (record draw { key_seed = 5 }) kitchen
      (text "cook|owner" ∷ []) (3 ∷ []) default_template default_template 8000 two_attributes.1
      joined_attribute.1 (packets_of joined_attribute.0)
      (cache_produce_for_attributes-Linked draw lamp (text "cook" ∷ text "owner" ∷ []) (1 ∷ 2 ∷ [])
        default_template default_template 8000 empty_kp two_attributes.1
        (packets_of two_attributes.0) no_key-AreSoundFor refl).0
      refl

-- The kept key is used: the packets of the key are those of the two attributes.
joined_attribute_kept : (packets_of joined_attribute.0).1 ≡ (packets_of two_attributes.0).1
unfolding find insert cache_produce_for_attributes attributes_text cached_or_made produce_under
    ck_data_gen_attributes attributes_component policy_string join_bars pop_back kp_content_key_gen
    content_key_gen c_buffer to_u32 ck_segments ck_data_name produce_with_key ck_object_name encrypt
    get_ck_encrypted_data to_string digits until_nul bounded sealed_of frames frame body
joined_attribute_kept = refl
