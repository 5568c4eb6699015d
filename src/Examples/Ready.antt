-- ===== src/Examples/Ready.antt =====
-- examples: what the three programs are made of, and what the consumer starts with.
use mathlib.Core.Path.{subst}
use nac_abe.Common.{
  ℕ, ◌≡◌, ◌≢◌, refl, Bytes, bytes_beq, bytes_beq_iff, Bool-cases, false, ◌++◌, ap, ◌∙◌, true, some,
  [], ◌∷◌, get_elem?, arith, inl, inr, Option-cases,
}
use nac_abe.Common.Map.{find, insert, find-insert_self}
use nac_abe.Common.Result.{Result, ok, Result-cases}
use nac_abe.Common.Exec.{Exec-cases}
use nac_abe.Ndn.{Ndn, name_eq}
use nac_abe.Packets.{Interest, interest}
use nac_abe.Security.{Security}
use nac_abe.OpenAbe.{OpenAbe}
use nac_abe.Algo.Keys.{PublicParams, MasterKey, PrivateKey}
use nac_abe.Algo.Decrypt.{AbeSupport}
use nac_abe.Algo.Support.{kp_init, kp_prv_key_gen, policy_string, join_bars, pop_back}
use nac_abe.ParamFetcher.{ParamFetcher, fetch_public_params, default_interest_template}
use nac_abe.AttributeAuthority.State.{
  KpAttributeAuthority, new_authority, new_kp_authority, add_new_policy, kp_get_private_key,
}
use nac_abe.Producer.State.{Draw, default_template}
use nac_abe.Producer.Produce.{Produced, produce_for_attributes}
use nac_abe.Consumer.State.{Consumer, fetch_data}
use nac_abe.Consumer.Consume.{
  ready_for_decryption, consume_interest, consume_name, new_consumer, obtain_decryption_key,
}
use nac_abe.Consumer.Fetch.{waiting}
use nac_abe.Delivery.Opened.{IsNew}
use nac_abe.Producer.Command.{new_producer}
use nac_abe.Examples.Programs.{
  run_consumer, data_name, producer_name, new_example_producer, Pib, hello, attribute, aa_name,
  consumer_name, data_suffix, ExampleAuthority, ExampleProducer, ExampleConsumer,
  new_example_authority, run_producer, on_prefix_registered,
}

module _ ⦃ndn : Ndn⦄ ⦃sec : Security⦄ ⦃abe : OpenAbe⦄ where
  open ndn use {Name}

  -- The authority that the program makes has set up KP-ABE, and a token for the consumer.
  pub record IsMade (r : ℕ) (a : KpAttributeAuthority) : Type 0 where
    pub setup : kp_init r ≡ ok (a.m_pub_params, a.m_master_key)
    pub token : find consumer_name a.m_tokens ≡ some attribute

  pub new_example_authority-IsMade :
      (pib : Pib) (r : ℕ) (e : ExampleAuthority)
      → new_example_authority pib r ≡ ok e
      → IsMade r e.m_aa
  unfolding new_example_authority new_kp_authority new_authority add_new_policy find
  new_example_authority-IsMade pib r e h = elim (Result-cases (kp_init r)) [
    | inl ((params, master), q) ↦ record {
      setup = ground arith;
      token =
          ap (find consumer_name) (tokens params master q)
          ∙ find-insert_self consumer_name attribute [] refl;
    }
    | inr (x, q) ↦ absurd (ground arith)
  ]
    where
      tokens :
          (params : PublicParams) (master : MasterKey)
          → kp_init r ≡ ok (params, master)
          → e.m_aa.m_tokens ≡ insert consumer_name attribute []
      tokens params master q = ground arith

  pub key_made :
      (r r1 : ℕ) (a : KpAttributeAuthority) (prv : PrivateKey)
      → IsMade r a
      → kp_get_private_key a consumer_name r1 ≡ ok prv
      → kp_prv_key_gen a.m_pub_params a.m_master_key attribute r1 ≡ ok prv
  unfolding kp_get_private_key
  key_made r r1 a prv m h = ground (arith, m.token)

  pub produced :
      (p : ExampleProducer) (draw : Draw) (r : Produced)
      → run_producer p draw ≡ ok r
      → (produce_for_attributes p.m_producer draw data_suffix
            (attribute ∷ [])
            hello
            default_template
            default_template
            1500
          ≡ ok r)
        × (r.0 ≢ [])
  unfolding run_producer
  produced p draw r h =
      elim (Result-cases (
        produce_for_attributes p.m_producer draw data_suffix (attribute ∷ []) hello default_template
          default_template 1500)) [
            | inr (x, q) ↦ absurd (ground arith)
            | inl (made, q) ↦ elim (Option-cases (get_elem? made.0 0)) [
              | inl none_first ↦ absurd (ground arith)
              | inr (first, f) ↦ (ground arith, λ e. ground (arith, ap (λ l. get_elem? l 0) e))
            ]
          ]

  -- A consumer that has not fetched anything.
  pub record IsIdle (support : AbeSupport) (c : Consumer) : Type 0 where
    pub no_keys : c.m_ck_enc_aes_cache ≡ []
    pub no_flights : c.m_ck_interests_sent ≡ []
    pub no_waiters : c.m_pending_callbacks ≡ []
    pub same_support : c.abe_support ≡ support

  new_consumer-IsIdle :
      (support : AbeSupport) (cert authority : sec.Certificate) (template : Interest) (c : Consumer)
      (i : Interest)
      → new_consumer support cert authority template ≡ ok (c, i)
      → IsIdle support c
  unfolding new_consumer fetch_public_params
  new_consumer-IsIdle support cert authority template c i h = record {
    no_keys = ground arith;
    no_flights = ground arith;
    no_waiters = ground arith;
    same_support = ground arith;
  }

  asked-IsIdle :
      (support : AbeSupport) (c : Consumer)
      → IsIdle support c
      → IsIdle support (obtain_decryption_key c).1
  unfolding obtain_decryption_key
  asked-IsIdle support c h =
      elim (Option-cases (sec.key_name_from_cert_name (sec.cert_name c.m_cert))) [
        | inl e ↦ rw e h
        | inr (n, e) ↦ rw e (record {
          no_keys = h.no_keys;
          no_flights = h.no_flights;
          no_waiters = h.no_waiters;
          same_support = h.same_support;
        })
      ]

  pub registered :
      (pib : Pib) (support : AbeSupport) (e e' : ExampleConsumer) (i : Interest) (c : Consumer)
      → on_prefix_registered pib support e ≡ ok (e', i)
      → e'.m_consumer ≡ some c
      → IsIdle support c
  unfolding on_prefix_registered
  registered pib support e e' i c h q = elim (Option-cases (pib aa_name)) [
    | inl none_cert ↦ absurd (ground arith)
    | inr (aa_cert, f) ↦
        elim (Result-cases (
          new_consumer support e.m_consumer_cert aa_cert
            (default_interest_template ndn.empty_name))) [
              | inr (x, g) ↦ absurd (ground arith)
              | inl ((d, j), g) ↦
                  let idle = asked-IsIdle support d (
                    new_consumer-IsIdle support e.m_consumer_cert aa_cert
                      (default_interest_template ndn.empty_name) d j g) in
                  elim (Exec-cases (obtain_decryption_key d)) [
                    | inr (x, d', k) ↦ absurd (ground arith)
                    | inl (u, d', k) ↦
                        let same : d' ≡ c = ground arith in
                        subst (IsIdle support)
                          (ap (λ (z : Result (Unit {0}) × Consumer). z.1) k ∙ same) idle
                  ]
            ]
  ]

  -- The Interest of `consume` with the example's name.
  abbrev pub download : Consumer → Interest
  download c = record (interest data_name) {
    can_be_prefix = true;
    lifetime = some c.m_default_timeout;
  }

  -- The consumer after it has started to fetch the data.
  abbrev pub downloading : Consumer → Consumer
  downloading c = record c { events = c.events ++ fetch_data (download c) ∷ [] }

  pub IsIdle-IsNew :
      (object : Name) (support : AbeSupport) (c : Consumer) (prv : PrivateKey) (f : ParamFetcher)
      → IsIdle support c
      → IsNew object (downloading (record c { m_key_cache = prv; m_param_fetcher = f }))
  unfolding find
  IsIdle-IsNew object support c prv f h = record {
    not_cached = rw h.no_keys refl;
    not_sent = rw h.no_flights refl;
    nobody_waits = rw (waiting, h.no_waiters) refl;
  }

  pub attributes_lem : policy_string (attribute ∷ []) ≡ ok attribute
  unfolding policy_string join_bars pop_back
  attributes_lem = refl

  pub not_empty : (b : Bytes) → b ≢ [] → bytes_beq b [] ≡ false
  not_empty b h = elim (Bool-cases (bytes_beq b [])) [
    | inl e ↦ absurd (h ((bytes_beq_iff b []).0 e))
    | inr e ↦ e
  ]

  pub run_consumer_lem :
      (e : ExampleConsumer) (c : Consumer) (t : ℕ)
      → e.m_consumer ≡ some c
      → c.m_param_fetcher.m_pub_params_cache.m_pub ≢ []
      → c.m_key_cache.m_prv ≢ []
      → run_consumer e t ≡ ok (record e { m_consumer = some (downloading c) })
  unfolding run_consumer consume_name consume_interest ready_for_decryption
  run_consumer_lem e c t h params key = ground (
    arith,
    not_empty c.m_param_fetcher.m_pub_params_cache.m_pub params,
    not_empty c.m_key_cache.m_prv key,
  )

  -- The PIB gives an identity's certificate: one of that identity.
  abbrev pub IsPib : Pib → Type 0
  IsPib pib = (n : Name) (cert : sec.Certificate) → pib n ≡ some cert → sec.identity cert ≡ n

  pub new_example_producer-identity :
      (pib : Pib) (p : ExampleProducer) (i : Interest)
      → IsPib pib
      → new_example_producer pib ≡ ok (p, i)
      → sec.identity p.m_producer.m_cert ≡ producer_name
  unfolding new_example_producer new_producer fetch_public_params
  new_example_producer-identity pib p i keeps h = elim (Option-cases (pib producer_name)) [
    | inl e ↦ absurd (ground arith)
    | inr (cert, e) ↦ elim (Option-cases (pib aa_name)) [
      | inl e' ↦ absurd (ground arith)
      | inr (aa_cert, e') ↦
          let q : p.m_producer.m_cert ≡ cert = ground arith in
          ap sec.identity q ∙ keeps producer_name cert e
    ]
  ]

  pub data_name_lem : ndn.append_name producer_name data_suffix ≡ data_name
  data_name_lem =
      ndn.components_injective (ndn.append_name producer_name data_suffix) data_name
        (simp (ndn.components-append_name, ndn.components-append, ndn.components-empty_name))
