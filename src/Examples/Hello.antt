-- ===== src/Examples/Hello.antt =====
-- examples: the three programs together.
use mathlib.Core.Path.{subst}
use nac_abe.Common.{
  ℕ, ◌≤◌, ◌≡◌, ◌≢◌, refl, sym, ap, ◌∙◌, true, some, [], ◌∷◌, length, concat_map, inl, inr, beq_refl,
}
use nac_abe.Common.Map.{find}
use nac_abe.Common.Result.{ok}
use nac_abe.Constants.{abe_type_kp_abe}
use nac_abe.Ndn.{Ndn, name_eq}
use nac_abe.Packets.{Interest}
use nac_abe.Security.{Security}
use nac_abe.OpenAbe.{OpenAbe, IsSecure, OutputsFit}
use nac_abe.Algo.Keys.{PublicParams, PrivateKey}
use nac_abe.Algo.Decrypt.{fresh_support}
use nac_abe.ParamFetcher.{ParamFetcher}
use nac_abe.AttributeAuthority.State.{kp_get_private_key}
use nac_abe.Producer.State.{Draw, default_template}
use nac_abe.Producer.Produce.{Produced}
use nac_abe.Producer.Produce.Links.{produce_for_attributes-Linked, ck_object_name_lem}
use nac_abe.Consumer.State.{Consumer}
use nac_abe.Consumer.Fetch.{ck_interest}
use nac_abe.AttributeAuthority.Request.{first_packet}
use nac_abe.Examples.Serving.{probe_first, Named}
use nac_abe.Delivery.Opened.{Received}
use nac_abe.Delivery.{kp_delivered}
use nac_abe.Examples.Ready.{
  new_example_authority-IsMade, key_made, produced, registered, IsIdle-IsNew, attributes_lem,
  run_consumer_lem, download, downloading, IsPib, new_example_producer-identity, data_name_lem,
}
use nac_abe.Examples.Programs.{
  run_consumer, data_name, new_example_producer, Pib, hello, attribute, consumer_name, put_segments,
  data_suffix, ExampleAuthority, ExampleProducer, ExampleConsumer, new_example_authority,
  run_producer, on_prefix_registered,
}

module _ ⦃ndn : Ndn⦄ ⦃sec : Security⦄ ⦃abe : OpenAbe⦄ where
  open ndn use {Name}

  -- The consumer has been given the parameters and its key.
  abbrev pub equipped : ParamFetcher → PrivateKey → Consumer → Consumer
  equipped f prv c = record c { m_key_cache = prv; m_param_fetcher = f }

  -- The producer has been given the parameters.
  abbrev pub informed : ParamFetcher → ExampleProducer → ExampleProducer
  informed f p = record p { m_producer = record p.m_producer { m_param_fetcher = f } }

  -- From the consumer's `run` to its success callback. The Interest that `run` sends for the data, and
  -- the one that it then sends for the content key, have the first packet of the producer's data and
  -- of its content key; the content of the fetched packets makes the callback run with the text.
  pub record HasText (e : ExampleConsumer) (c : Consumer) (r : Produced) (t : ℕ) : Type 0 where
    pub runs :
        run_consumer (record e { m_consumer = some c }) t
        ≡ ok (record e { m_consumer = some (downloading c) })
    pub data_found : put_segments (download c) r.0 ≡ first_packet r.0
    pub some_data : r.0 ≢ []
    pub object : Name
    pub key_found : put_segments (ck_interest object c) r.1 ≡ first_packet r.1
    pub some_key : r.1 ≢ []
    pub received :
        Received object
          (concat_map (λ d. d.content) r.0)
          (concat_map (λ d. d.content) r.1)
          hello
          t
          (downloading c)

  module _ (secure : IsSecure) {limit : ℕ} (fit : OutputsFit limit) where
    -- The three example programs work together. The authority and the producer have been made; the
    -- producer has the parameters, and has made packets of its text; the consumer's prefix has been
    -- registered, and it has the parameters and the key that the authority generates for it. Then the
    -- consumer's `run` sends an Interest for the data, for which the producer puts its first data
    -- packet; with the data fetched, the consumer sends an Interest for the content key, for which
    -- the producer puts its first content key packet; with that fetched, the success callback is
    -- called with the text. The text is within the size limit, the key is not empty, the PIB gives an
    -- identity its own certificate, and the policy of the example is satisfied by its attribute.
    pub hello_delivered :
        (pib : Pib) (r0 r1 : ℕ) (a : ExampleAuthority) (prv : PrivateKey) (p : ExampleProducer)
        (draw : Draw) (r : Produced) (e e' : ExampleConsumer) (i j : Interest) (c : Consumer)
        (t : ℕ) (f g : ParamFetcher)
        → IsPib pib
        → new_example_authority pib r0 ≡ ok a
        → kp_get_private_key a.m_aa consumer_name r1 ≡ ok prv
        → prv.m_prv ≢ []
        → new_example_producer pib ≡ ok (p, j)
        → g.m_pub_params_cache ≡ a.m_aa.m_pub_params
        → run_producer (informed g p) draw ≡ ok r
        → on_prefix_registered pib fresh_support e ≡ ok (e', i)
        → e'.m_consumer ≡ some c
        → f.m_abe_type ≡ abe_type_kp_abe
        → f.m_pub_params_cache ≡ a.m_aa.m_pub_params
        → secure.satisfies abe_type_kp_abe attribute attribute ≡ true
        → length hello ≤ limit
        → HasText e' (equipped f prv c) r t
    hello_delivered pib r0 r1 a prv p draw r e e' i j c t f g keeps ha hk some_prv hn hp hr hc hs ft
          fp sat l =
        let m = new_example_authority-IsMade pib r0 a ha in
        let (made, some_data) = produced (informed g p) draw r hr in
        let idle = registered pib fresh_support e e' i c hc hs in
        elim (produce_for_attributes-Linked (informed g p).m_producer draw data_suffix
          (attribute ∷ []) hello default_template default_template 1500 r made) [
            | inl (empty, _) ↦ absurd (some_data (ap (λ (z : Produced). z.0) empty))
            | inr (some_params, _, key, made_key, linked) ↦ record {
              runs =
                  run_consumer_lem (record e' { m_consumer = some (equipped f prv c) })
                    (equipped f prv c) t refl
                    (λ q. some_params (ap (λ (z : PublicParams). z.m_pub) (hp ∙ sym fp) ∙ q))
                    some_prv;
              data_found =
                  probe_first data_name (download (equipped f prv c)) r.0
                    (rw (beq_refl data_name) refl)
                    (subst (λ n. Named n r.0)
                      (ap (λ n. ndn.append_name n data_suffix)
                          (new_example_producer-identity pib p j keeps hn)
                        ∙ data_name_lem)
                      linked.data_packets.names);
              some_data = some_data;
              object = linked.ck_object;
              key_found =
                  probe_first linked.ck_object (ck_interest linked.ck_object (equipped f prv c)) r.1
                    (rw (beq_refl linked.ck_object) refl) linked.ck_packets.names;
              some_key = linked.ck_packets.some_packet;
              received =
                  kp_delivered secure fit r0 r1 a.m_aa.m_pub_params a.m_aa.m_master_key
                    (attribute ∷ []) attribute attribute prv (informed g p).m_producer draw
                    data_suffix hello default_template default_template 1500 r linked.ck_object t
                    (downloading (equipped f prv c)) m.setup attributes_lem
                    (key_made r0 r1 a.m_aa prv m hk) hp made
                    (ck_object_name_lem linked.ck_object _ r.1 linked.ck_packets) sat l
                    (record { abe_type = ft; params_lem = fp; key_lem = refl })
                    (IsIdle-IsNew linked.ck_object fresh_support c prv f idle)
                    (λ cipher q.
                      rw idle.same_support (λ sealed k q none_cached. unfold find in cc));
            }
          ]
