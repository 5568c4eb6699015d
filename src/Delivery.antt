-- ===== src/Delivery.antt =====
-- producer.cpp and consumer.cpp: from a producer's packets to a consumer's callback.
pub mod Opened
pub mod Steps
use mathlib.Core.Path.{subst}
use mathlib.Core.List.{append_assoc}
use nac_abe.Common.{
  ℕ, ◌≤◌, Bytes, ◌≡◌, ◌≢◌, refl, sym, ap, ◌∙◌, Bool, true, false, Option, none, some, List, [], ◌∷◌,
  ◌++◌, concat_map, length, arith, bytes_beq, inl, inr,
}
use nac_abe.Common.Map.{find, find-put_self}
use nac_abe.Common.Result.{Result, ok, err, Result-cases}
use nac_abe.Constants.{abe_type_kp_abe}
use nac_abe.Ndn.{Ndn, name_eq}
use nac_abe.Security.{Security}
use nac_abe.OpenAbe.{OpenAbe, IsSecure, OutputsFit}
use nac_abe.Algo.Keys.{PublicParams, MasterKey, PrivateKey}
use nac_abe.Algo.Content.{ContentKey, CipherText, empty_content_key, make_ck_content}
use nac_abe.Algo.Context.{encrypt}
use nac_abe.Algo.Inversion.{encrypt_inverted}
use nac_abe.Algo.Decrypt.{AbeSupport, decrypt, cp_decrypt, kp_decrypt}
use nac_abe.Algo.Support.{kp_init, kp_prv_key_gen, kp_content_key_gen, kp_encrypt, policy_string}
use nac_abe.Algo.RoundTrip.{Agrees, cp_decrypt-cp_encrypt, kp_decrypt-kp_encrypt}
use nac_abe.Producer.State.{Draw, Template, Producer}
use nac_abe.Producer.Produce.{Produced, nothing, ck_object_name, produce_for_attributes, data_block}
use nac_abe.Producer.Produce.Links.{Linked, ck_object_name_lem, produce_for_attributes-Linked}
use nac_abe.Consumer.State.{PendingTask, on_success, fetch_ck, Consumer}
use nac_abe.Consumer.Fetch.{decryption, waiting, ck_interest, on_ck_complete}
use nac_abe.Consumer.Consume.{on_data_complete}
use nac_abe.Consumer.Flights.{in_flight}
use nac_abe.Delivery.Opened.{Received, IsNew, Equipped, kp_packets_delivered, kp_encrypt_lem}
use nac_abe.Delivery.Steps.{keyless, with_enc, asking, served_state, data_lem, key_lem}

module _ ⦃ndn : Ndn⦄ ⦃sec : Security⦄ ⦃abe : OpenAbe⦄ where
  open ndn use {Name, wire}

  module _ (secure : IsSecure) {limit : ℕ} (fit : OutputsFit limit) where
    unnamed : (r : Produced) (object : Name) → r ≡ nothing → ck_object_name r.1 ≢ ok object
    unfolding ck_object_name
    unnamed r object e h = cc

    object_lem :
        (p : Producer) (draw : Draw) (key : ContentKey) (suffix : Name) (content : Bytes)
        (r : Produced) (object : Name) (linked : Linked p draw key suffix content r)
        → ck_object_name r.1 ≡ ok object
        → linked.ck_object ≡ object
    object_lem p draw key suffix content r object linked h = ground (
      arith,
      ck_object_name_lem linked.ck_object (wire (make_ck_content key)) r.1 linked.ck_packets,
    )

    pub kp_delivered :
        (r0 r1 : ℕ) (params : PublicParams) (master : MasterKey) (attributes : List Bytes)
        (s policy : Bytes) (prv : PrivateKey) (p : Producer) (draw : Draw) (suffix : Name)
        (content : Bytes) (ck_template template : Template) (m : ℕ) (r : Produced) (object : Name)
        (t : ℕ) (c : Consumer)
        → kp_init r0 ≡ ok (params, master)
        → policy_string attributes ≡ ok s
        → kp_prv_key_gen params master policy r1 ≡ ok prv
        → p.m_param_fetcher.m_pub_params_cache ≡ params
        → produce_for_attributes p draw suffix attributes content ck_template template m ≡ ok r
        → ck_object_name r.1 ≡ ok object
        → secure.satisfies abe_type_kp_abe policy s ≡ true
        → length content ≤ limit
        → Equipped abe_type_kp_abe params prv c
        → IsNew object c
        → ((cipher : CipherText)
            → kp_encrypt params attributes content draw.key_seed draw.seal_seed draw.sym_seed
              ≡ ok cipher
            → Agrees c.abe_support cipher)
        → Received object
            (concat_map (λ d. d.content) r.0)
            (concat_map (λ d. d.content) r.1)
            content
            t
            c
    kp_delivered r0 r1 params master attributes s policy prv p draw suffix content ck_template
          template m r object t c hi hs hk hp made named sat l eq new agrees =
        elim (produce_for_attributes-Linked p draw suffix attributes content ck_template template m
          r made) [
            | inl (empty, _) ↦ absurd (unnamed r object empty named)
            | inr (_, _, key, made_key, linked) ↦
                let hc =
                  subst (λ q. kp_content_key_gen q attributes draw.key_seed draw.seal_seed ≡ ok key)
                    hp made_key in
                let q = object_lem p draw key suffix content r object linked named in
                subst
                  (λ o.
                    Received o (concat_map (λ d. d.content) r.0) (concat_map (λ d. d.content) r.1)
                      content t c)
                  q
                  (kp_packets_delivered secure fit r0 r1 params master attributes s policy prv p
                    draw key suffix content r t c linked hi hs hk hc sat l eq
                    (subst (λ o. IsNew o c) (sym q) new)
                    (agrees linked.cipher (
                      kp_encrypt_lem params attributes content draw key linked.cipher hc
                        linked.encrypted)))
          ]
