-- ===== src/Sample/ProducerTests.antt =====
-- The theorems on the producer's tables and on what it makes, at concrete inputs.
use nac_abe.Common.{text, ◌≡◌, refl, [], ◌∷◌}
use nac_abe.Common.Result.{Result, ok}
use nac_abe.Algo.Context.{content_key_gen, encrypt, c_buffer, to_u32}
use nac_abe.Algo.Support.{
  cp_content_key_gen, kp_content_key_gen, policy_string, join_bars, pop_back,
}
use nac_abe.Constants.{abe_type_cp_abe, abe_type_kp_abe}
use nac_abe.TrustConfig.{empty_trust}
use nac_abe.Producer.Policies.{PolicyTable, AttributeTable, find_matched_policy}
use nac_abe.Producer.Policies.Longest.{IsLongest, find_matched_policy-IsLongest}
use nac_abe.Common.Text.{until_nul}
use nac_abe.Producer.Decimal.{digits, to_string}
use nac_abe.Producer.State.{Draw, default_template, Producer}
use nac_abe.Producer.Produce.{
  ck_data_gen_policy, ck_data_gen_attributes, attributes_component, ck_segments, ck_data_name,
  produce_with_key_data, produce_with_key, ck_object_name, get_ck_encrypted_data, Produced,
  produce_for_policy, produce_for_attributes,
}
use nac_abe.Producer.Produce.Links.{
  Outcome, produce_for_policy-Linked, produce_for_attributes-Linked,
}
use nac_abe.Sample.Names.{NameParts, toy_ndn}
use nac_abe.Sample.Certificates.{named, toy_security}
use nac_abe.Sample.Abe.{toy_abe, bounded, sealed_of}
use nac_abe.Sample.Codec.{frames, body, frame}
use nac_abe.Sample.TrustTests.{fetcher}

abbrev home : NameParts
home = (8, text "home") ∷ []

abbrev pub kitchen : NameParts
kitchen = (8, text "home") ∷ (8, text "kitchen") ∷ []

abbrev pub lamp : NameParts
lamp = (8, text "home") ∷ (8, text "kitchen") ∷ (8, text "lamp") ∷ []

abbrev pub policies : PolicyTable
policies = (home, text "owner") ∷ ([], text "all") ∷ []

abbrev attributes : AttributeTable
attributes = (home, text "owner" ∷ []) ∷ (kitchen, text "cook" ∷ text "owner" ∷ []) ∷ []

find_matched_policy-IsLongest_example :
    IsLongest lamp 0 [] policies (find_matched_policy lamp policies)
find_matched_policy-IsLongest_example = find_matched_policy-IsLongest lamp policies

abbrev pub draw : Draw
draw = record { key_seed = 0; seal_seed = 1; sym_seed = 2; word = 4294967295 }

abbrev pub cp_producer : Producer
cp_producer = record {
  m_cert = named (text "producer");
  m_data_owner_key_name = [];
  m_trust_config = empty_trust;
  m_policies = policies;
  m_attributes = [];
  m_param_fetcher = record fetcher {
    m_abe_type = abe_type_cp_abe;
    m_pub_params_cache = record { m_pub = 1 ∷ [] };
  };
  reply_template = default_template;
}

abbrev pub kp_producer : Producer
kp_producer = record cp_producer {
  m_param_fetcher = record fetcher {
    m_abe_type = abe_type_kp_abe;
    m_pub_params_cache = record { m_pub = 1 ∷ [] };
  };
}

abbrev produced : Result Produced → Produced
produced r = elim r [ ok p ↦ p | _ ↦ ([], []) ]

abbrev lamp_packets : Produced
lamp_packets = produced (
    produce_for_policy cp_producer draw lamp (text "cook") (1 ∷ 2 ∷ []) default_template
      default_template 8000)

produce_for_policy-Linked_example :
    Outcome cp_producer draw abe_type_cp_abe
      (λ key. cp_content_key_gen (record { m_pub = 1 ∷ [] }) (text "cook") 0 1 ≡ ok key)
      lamp
      (1 ∷ 2 ∷ [])
      lamp_packets
unfolding produce_for_policy ck_data_gen_policy cp_content_key_gen content_key_gen c_buffer to_u32
    ck_segments ck_data_name produce_with_key_data produce_with_key ck_object_name encrypt
    get_ck_encrypted_data to_string digits until_nul bounded sealed_of frames frame body
produce_for_policy-Linked_example =
    produce_for_policy-Linked cp_producer draw lamp (text "cook") (1 ∷ 2 ∷ []) default_template
      default_template 8000 lamp_packets refl

abbrev shared_packets : Produced
shared_packets = produced (
    produce_for_attributes kp_producer draw lamp (text "cook" ∷ text "owner" ∷ []) (1 ∷ 2 ∷ [])
      default_template default_template 8000)

produce_for_attributes-Linked_example :
    Outcome kp_producer draw abe_type_kp_abe
      (λ key.
        kp_content_key_gen (record { m_pub = 1 ∷ [] }) (text "cook" ∷ text "owner" ∷ []) 0 1
        ≡ ok key)
      lamp
      (1 ∷ 2 ∷ [])
      shared_packets
unfolding produce_for_attributes ck_data_gen_attributes attributes_component policy_string join_bars
    pop_back kp_content_key_gen content_key_gen c_buffer to_u32 ck_segments ck_data_name
    produce_with_key_data produce_with_key ck_object_name encrypt get_ck_encrypted_data to_string
    digits until_nul bounded sealed_of frames frame body
produce_for_attributes-Linked_example =
    produce_for_attributes-Linked kp_producer draw lamp (text "cook" ∷ text "owner" ∷ [])
      (1 ∷ 2 ∷ []) default_template default_template 8000 shared_packets refl
