-- ===== src/Examples/Programs.antt =====
-- examples/kp-aa-example.cpp, kp-producer-example.cpp and kp-consumer-example.cpp.
use nac_abe.Common.{
  ℕ, Bytes, text, false, ◌||◌, Option, none, some, List, [], ◌∷◌, ◌++◌, map, get_elem?,
  if◌then◌else◌, ◌==◌,
}
use nac_abe.Common.Result.{Result, ok, err, out_of_range, pib_error, undefined, or_throw, ◌>>=◌}
use nac_abe.Ndn.{Ndn, name_eq}
use nac_abe.Packets.{Interest, Data}
use nac_abe.Security.{Security}
use nac_abe.OpenAbe.{OpenAbe}
use nac_abe.Algo.Decrypt.{AbeSupport}
use nac_abe.ParamFetcher.{default_interest_template}
use nac_abe.Producer.State.{Draw, Producer, default_template}
use nac_abe.Producer.Produce.{Produced, produce_for_attributes}
use nac_abe.Producer.Command.{new_producer}
use nac_abe.Consumer.State.{Consumer}
use nac_abe.Consumer.Consume.{new_consumer, obtain_decryption_key, consume_name}
use nac_abe.AttributeAuthority.State.{KpAttributeAuthority, new_kp_authority, add_new_policy}

-- what the programs give the library
abbrev pub hello : Bytes
hello = text "Hello world"

abbrev pub attribute : Bytes
attribute = text "attribute"

module _ ⦃ndn : Ndn⦄ ⦃sec : Security⦄ where
  open ndn use {Name, append, generic, empty_name, name_beq, drop_last, is_prefix_of}

  abbrev pub path_from : Name → List Bytes → Name
  path_from n [] = n
  path_from n (s ∷ rest) = path_from (append n (generic s)) rest

  -- A name from a text such as `/example/aa`.
  abbrev pub path : List Bytes → Name
  path parts = path_from empty_name parts

  abbrev pub aa_name : Name
  aa_name = path (text "example" ∷ text "aa" ∷ [])

  abbrev pub producer_name : Name
  producer_name = path (text "example" ∷ text "producer" ∷ [])

  abbrev pub consumer_name : Name
  consumer_name = path (text "example" ∷ text "consumer" ∷ [])

  abbrev pub data_suffix : Name
  data_suffix = path (text "randomData" ∷ [])

  abbrev pub data_name : Name
  data_name = path (text "example" ∷ text "producer" ∷ text "randomData" ∷ [])

  -- `getIdentity(n).getDefaultKey().getDefaultCertificate()` of the key chain's PIB, which throws
  abbrev pub Pib : Type 0
  Pib = Name → Option sec.Certificate

  abbrev pub default_certificate : Pib → Name → Result sec.Certificate
  default_certificate pib n = or_throw pib_error (pib n)

  -- what a program puts
  pub data Put : Type 0 where
    put_certificate : sec.Certificate → Put
    put_data : Data → Put

  pub record ExampleAuthority : Type 0 where
    pub m_aa_cert : sec.Certificate
    pub m_aa : KpAttributeAuthority

  pub record ExampleProducer : Type 0 where
    pub m_producer_cert : sec.Certificate
    pub m_producer : Producer

  -- The consumer proper is made when the prefix has been registered.
  pub record ExampleConsumer : Type 0 where
    pub m_consumer_cert : sec.Certificate
    pub m_consumer : Option Consumer

  -- The filter of the authority's and of the consumer's own certificate.
  unfoldable pub on_certificate_interest : sec.Certificate → Interest → List Put
  on_certificate_interest cert i =
      if is_prefix_of (sec.key_name cert) i.name then put_certificate cert ∷ [] else []

  -- `putSegments`: the first segment that the Interest asks for by its name, or by the object's name
  -- where it may be a prefix.
  unfoldable pub put_segments : Interest → List Data → List Data
  put_segments i [] = []
  put_segments i (seg ∷ rest) =
      let exact_seg = i.name == seg.name in
      let probe_seg = if i.name == drop_last seg.name then i.can_be_prefix else false in
      let later = put_segments i rest in if exact_seg || probe_seg then seg ∷ [] else later

  -- The filter of the producer: its own certificate, content segments and content key segments.
  unfoldable pub on_producer_interest :
      ExampleProducer → List Data → List Data → Interest → List Put
  on_producer_interest p content_data ck_data i =
      (if is_prefix_of i.name (sec.cert_name p.m_producer_cert)
        then put_certificate p.m_producer_cert ∷ []
        else [])
      ++ (map put_data (put_segments i content_data) ++ map put_data (put_segments i ck_data))

  -- The constructor of the producer, with the Interest for the public parameters.
  unfoldable pub new_example_producer : Pib → Result (ExampleProducer × Interest)
  new_example_producer pib = do
    cert ← default_certificate pib producer_name
    aa_cert ← default_certificate pib aa_name
    made ← new_producer empty_name cert aa_cert (default_interest_template empty_name)
    ok (record { m_producer_cert = cert; m_producer = made.0 }, made.1)

  -- The constructor of the consumer.
  unfoldable pub new_example_consumer : Pib → Result ExampleConsumer
  new_example_consumer pib = do
    cert ← default_certificate pib consumer_name
    ok (record { m_consumer_cert = cert; m_consumer = none })

module _ ⦃ndn : Ndn⦄ ⦃sec : Security⦄ ⦃abe : OpenAbe⦄ where
  open ndn use {empty_name}

  -- The constructor of the authority: the consumer's certificate is read and not used.
  unfoldable pub new_example_authority : Pib → ℕ → Result ExampleAuthority
  new_example_authority pib r = do
    aa_cert ← default_certificate pib aa_name
    aa ← new_kp_authority aa_cert 1500 r
    consumer_cert1 ← default_certificate pib consumer_name
    ok (record { m_aa_cert = aa_cert; m_aa = add_new_policy consumer_name attribute aa })

  -- `run` of the producer, up to the filter; `at(0)` throws where nothing was made.
  unfoldable pub run_producer : ExampleProducer → Draw → Result Produced
  run_producer p draw = do
    made ←
        produce_for_attributes p.m_producer draw data_suffix (attribute ∷ []) hello default_template
          default_template 1500
    first ← or_throw out_of_range (get_elem? made.0 0)
    ok made

  -- The prefix has been registered: the consumer is made, and asks for its key.
  unfoldable pub on_prefix_registered :
      Pib → AbeSupport → ExampleConsumer → Result (ExampleConsumer × Interest)
  on_prefix_registered pib support e = do
    aa_cert ← default_certificate pib aa_name
    made ← new_consumer support e.m_consumer_cert aa_cert (default_interest_template empty_name)
    let (asked, c) = obtain_decryption_key made.0
    u ← asked
    ok (record e { m_consumer = some c }, made.1)

  -- `run` of the consumer: without a registered prefix the pointer is null.
  unfoldable pub run_consumer : ExampleConsumer → ℕ → Result ExampleConsumer
  run_consumer e callbacks = elim e.m_consumer [
    | none ↦ err undefined
    | some c ↦
        (let (r, c') = consume_name data_name callbacks c in
          elim r [ err x ↦ err x | ok u ↦ ok (record e { m_consumer = some c' }) ])
  ]
