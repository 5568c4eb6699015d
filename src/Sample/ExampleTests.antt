-- ===== src/Sample/ExampleTests.antt =====
-- The theorems on the example programs, and on property trees, at concrete inputs.
use nac_abe.Common.{Bytes, text, ◌≡◌, ◌≢◌, refl, some, none, List, [], ◌∷◌, arith, true}
use nac_abe.Common.Map.{find, insert}
use nac_abe.Common.Result.{ok, err}
use nac_abe.Constants.{abe_type_kp_abe}
use nac_abe.Packets.{Interest, Data, interest, data_template}
use nac_abe.ParamFetcher.{
  ParamFetcher, fetch_public_params, new_param_fetcher, default_interest_template,
}
use nac_abe.Algo.Decrypt.{fresh_support}
use nac_abe.Algo.Keys.{PrivateKey, no_key}
use nac_abe.Algo.Context.{init, prv_key_gen, c_buffer, content_key_gen, encrypt, to_u32}
use nac_abe.Algo.Support.{kp_init, kp_prv_key_gen, kp_content_key_gen, policy_string}
use nac_abe.TrustConfig.{empty_trust, add_or_update_certificate}
use nac_abe.AttributeAuthority.State.{
  new_authority, new_kp_authority, add_new_policy, kp_get_private_key,
}
use nac_abe.Consumer.Consume.{new_consumer, obtain_decryption_key}
use nac_abe.Sample.ConsumerTests.{idle}
use nac_abe.Consumer.State.{Consumer}
use nac_abe.Producer.Produce.{Produced, nothing, produce_for_attributes}
use nac_abe.Producer.State.{Draw}
use nac_abe.Examples.Programs.{
  Pib, attribute, consumer_name, put_segments, ExampleAuthority, ExampleProducer, ExampleConsumer,
  new_example_producer, new_example_authority, run_producer, on_prefix_registered,
}
use nac_abe.Examples.Serving.{Served, put_segments-Served}
use nac_abe.Producer.Command.{new_producer}
use nac_abe.Examples.Ready.{IsPib}
use nac_abe.Examples.Hello.{HasText, equipped, informed, hello_delivered}
use nac_abe.Sample.Codec.{frames, frame, body}
use nac_abe.Sample.Names.{NameParts, toy_ndn}
use nac_abe.Sample.Certificates.{Certificate, toy_security}
use nac_abe.Sample.Abe.{toy_abe, toy_secure, toy_fits, key_of, bounded, sealed_of}
use nac_abe.Sample.TrustTests.{fetcher}
use nac_abe.Sample.ProducerTests.{cp_producer}

abbrev object : NameParts
object = (8, text "o") ∷ (54, 1 ∷ []) ∷ []

abbrev segments : List Data
segments =
    data_template ((8, text "o") ∷ (54, 1 ∷ []) ∷ (50, 0 ∷ []) ∷ [])
    ∷ data_template ((8, text "o") ∷ (54, 1 ∷ []) ∷ (50, 1 ∷ []) ∷ [])
    ∷ []

abbrev probe : Interest
probe = record (interest object) { can_be_prefix = true }

put_segments-Served_example : Served object probe segments (put_segments probe segments)
put_segments-Served_example = put_segments-Served object probe segments ((0, refl), ((1, refl), tt))

-- every identity has a certificate
abbrev pib : Pib
pib n = some (record { identity = n; public_key = 9 ∷ [] })

abbrev draw : Draw
draw = record { key_seed = 0; seal_seed = 1; sym_seed = 2; word = 7 }

abbrev at_example : Bytes → Certificate
at_example part = record { identity = (8, text "example") ∷ (8, part) ∷ []; public_key = 9 ∷ [] }

abbrev example_authority : ExampleAuthority
example_authority = record {
  m_aa_cert = at_example (text "aa");
  m_aa = record {
    m_cert = at_example (text "aa");
    m_trust_config = empty_trust;
    m_max_segment_size = 1500;
    m_segment_map = [];
    m_abe_type = abe_type_kp_abe;
    m_pub_params = record { m_pub = 1 ∷ [] };
    m_master_key = record { m_msk = 1 ∷ [] };
    m_tokens = (consumer_name, attribute) ∷ [];
  };
}

authority_lem : new_example_authority pib 0 ≡ ok example_authority
unfolding new_example_authority new_kp_authority new_authority add_new_policy insert find kp_init
    init
authority_lem = refl

abbrev key_of_consumer : PrivateKey
key_of_consumer = elim (kp_get_private_key example_authority.m_aa consumer_name 0) [
  | ok k ↦ k
  | err x ↦ no_key
]

key_lem : kp_get_private_key example_authority.m_aa consumer_name 0 ≡ ok key_of_consumer
unfolding kp_get_private_key find kp_prv_key_gen prv_key_gen key_of c_buffer frames frame body
    bounded
key_lem = refl

abbrev kp_fetcher : ParamFetcher
kp_fetcher = record fetcher {
  m_abe_type = abe_type_kp_abe;
  m_pub_params_cache = record { m_pub = 1 ∷ [] };
}

abbrev no_producer : ExampleProducer
no_producer = record {
  m_producer_cert = at_example (text "producer");
  m_producer = record cp_producer {
    m_cert = at_example (text "producer");
    m_param_fetcher = kp_fetcher;
  };
}

-- as the constructor makes it, with its Interest
abbrev new_producer_made : ExampleProducer × Interest
new_producer_made = elim (new_example_producer pib) [
  | ok made ↦ made
  | err x ↦ (no_producer, interest [])
]

producer_lem : new_example_producer pib ≡ ok new_producer_made
unfolding new_example_producer new_producer fetch_public_params new_param_fetcher
    add_or_update_certificate default_interest_template find insert
producer_lem = refl

abbrev packets : Produced
packets = elim (run_producer (informed kp_fetcher new_producer_made.0) draw) [
  | ok r ↦ r
  | err x ↦ nothing
]

packets_lem : run_producer (informed kp_fetcher new_producer_made.0) draw ≡ ok packets
unfolding run_producer produce_for_attributes kp_content_key_gen policy_string content_key_gen
    bounded sealed_of frames encrypt to_u32
packets_lem = refl

abbrev unregistered : ExampleConsumer
unregistered = record { m_consumer_cert = at_example (text "consumer"); m_consumer = none }

abbrev registration : ExampleConsumer × Interest
registration = elim (on_prefix_registered pib fresh_support unregistered) [
  | ok r ↦ r
  | err x ↦ (unregistered, interest [])
]

abbrev consumer : Consumer
consumer = elim registration.0.m_consumer [ some c ↦ c | none ↦ idle ]

registered_lem : on_prefix_registered pib fresh_support unregistered ≡ ok registration
unfolding on_prefix_registered new_consumer obtain_decryption_key fetch_public_params
    new_param_fetcher add_or_update_certificate default_interest_template find insert
registered_lem = refl

consumer_lem : registration.0.m_consumer ≡ some consumer
unfolding on_prefix_registered new_consumer obtain_decryption_key fetch_public_params
    new_param_fetcher add_or_update_certificate default_interest_template find insert
consumer_lem = refl

key-ne-nil : key_of_consumer.m_prv ≢ []
unfolding kp_get_private_key find kp_prv_key_gen prv_key_gen key_of c_buffer frames frame body
    bounded
key-ne-nil e = cc

pib-IsPib : IsPib pib
pib-IsPib n cert e = ground arith

hello_delivered_example :
    HasText registration.0 (equipped kp_fetcher key_of_consumer consumer) packets 5
unfolding toy_secure key_of
hello_delivered_example =
    hello_delivered toy_secure toy_fits pib 0 0 example_authority key_of_consumer
      new_producer_made.0 draw packets unregistered registration.0 registration.1
      new_producer_made.1 consumer 5 kp_fetcher kp_fetcher pib-IsPib authority_lem key_lem
      key-ne-nil producer_lem refl packets_lem registered_lem consumer_lem refl refl refl
      (omega arith)
