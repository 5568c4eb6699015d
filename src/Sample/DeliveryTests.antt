-- ===== src/Sample/DeliveryTests.antt =====
-- The theorems on the delivery of content at concrete inputs.
use nac_abe.Common.{Bytes, List, [], ◌∷◌, concat_map}
use nac_abe.Constants.{abe_type_kp_abe}
use nac_abe.Packets.{Data}
use nac_abe.Producer.State.{Draw, default_template}
use nac_abe.Producer.Produce.{
  Produced, nothing, produce_for_policy, produce_for_attributes, ck_object_name,
}
use nac_abe.Common.Result.{Result, ok, err}
use nac_abe.Consumer.State.{Consumer}
use nac_abe.Sample.Names.{NameParts, toy_ndn}
use nac_abe.Sample.Certificates.{toy_security}
use nac_abe.Sample.Abe.{toy_abe}
use nac_abe.Sample.AlgoTests.{attribute}
use nac_abe.Sample.ProducerTests.{cp_producer, kp_producer, lamp}
use nac_abe.Sample.ConsumerTests.{idle}

abbrev draw : Draw
draw = record { key_seed = 0; seal_seed = 1; sym_seed = 2; word = 7 }

abbrev pub octets : List Data → Bytes
octets ds = concat_map (λ d. d.content) ds

abbrev packets_of : Result Produced → Produced
packets_of r = elim r [ ok p ↦ p | err x ↦ nothing ]

abbrev object_of : List Data → NameParts
object_of ds = elim (ck_object_name ds) [ ok n ↦ n | err x ↦ [] ]

abbrev cp_packets : Produced
cp_packets = packets_of (
    produce_for_policy cp_producer draw lamp attribute (7 ∷ 8 ∷ []) default_template
      default_template 8000)

abbrev kp_consumer : Consumer
kp_consumer = record idle {
  m_param_fetcher = record idle.m_param_fetcher { m_abe_type = abe_type_kp_abe };
}

abbrev kp_packets : Produced
kp_packets = packets_of (
    produce_for_attributes kp_producer draw lamp (attribute ∷ []) (7 ∷ 8 ∷ []) default_template
      default_template 8000)
