-- ===== src/Delivery/Opened.antt =====
-- producer.cpp and consumer.cpp: from linked packets to a consumer's callback.
use mathlib.Core.List.{append_assoc}
use nac_abe.Common.{
  ℕ, ◌≤◌, Bytes, ◌≡◌, refl, sym, ap, ◌∙◌, true, false, none, some, List, [], ◌∷◌, ◌++◌, concat_map,
  length, arith, inl, inr,
}
use nac_abe.Common.Map.{find, find-put_self}
use nac_abe.Common.Result.{Result, ok, Result-cases}
use nac_abe.Constants.{abe_type_cp_abe, abe_type_kp_abe}
use nac_abe.Ndn.{Ndn, name_eq}
use nac_abe.Security.{Security}
use nac_abe.OpenAbe.{OpenAbe, IsSecure, OutputsFit}
use nac_abe.Algo.Keys.{PublicParams, MasterKey, PrivateKey}
use nac_abe.Algo.Content.{ContentKey, CipherText}
use nac_abe.Algo.Context.{encrypt}
use nac_abe.Algo.Inversion.{encrypt_inverted}
use nac_abe.Algo.Decrypt.{AbeSupport, decrypt, cp_decrypt, kp_decrypt}
use nac_abe.Algo.Support.{
  cp_init, cp_prv_key_gen, cp_content_key_gen, cp_encrypt, kp_init, kp_prv_key_gen,
  kp_content_key_gen, kp_encrypt, policy_string,
}
use nac_abe.Algo.RoundTrip.{Agrees, cp_decrypt-cp_encrypt, kp_decrypt-kp_encrypt}
use nac_abe.Producer.State.{Draw, Producer}
use nac_abe.Producer.Produce.{Produced}
use nac_abe.Producer.Produce.Links.{Linked}
use nac_abe.Consumer.State.{PendingTask, on_success, fetch_ck, Consumer}
use nac_abe.Consumer.Fetch.{decryption, waiting, ck_interest, on_ck_complete}
use nac_abe.Consumer.Consume.{on_data_complete}
use nac_abe.Consumer.Flights.{in_flight}
use nac_abe.Delivery.Steps.{keyless, with_enc, asking, served_state, data_lem, key_lem}

module _ ⦃ndn : Ndn⦄ ⦃sec : Security⦄ ⦃abe : OpenAbe⦄ where
  open ndn use {Name, wire}

  same_object :
      (scheme : Bytes) (params : PublicParams) (prv : PrivateKey) (c d : CipherText)
      (s : AbeSupport)
      → c.m_content_key.m_enc_aes_key ≡ d.m_content_key.m_enc_aes_key
      → c.m_content ≡ d.m_content
      → decrypt scheme params prv c s ≡ decrypt scheme params prv d s
  unfolding decrypt
  same_object scheme params prv c d s e f = rw (e, f)

  -- The consumer fetches the data, then the key that the data names, and calls the success callback
  -- with the content.
  pub record Received (object : Name) (data_octets key_octets content : Bytes) (t : ℕ)
      (c : Consumer) : Type 0 where
    pub asked : Consumer
    pub done : Consumer
    pub data_lem : on_data_complete data_octets t c ≡ (ok tt, asked)
    pub key_lem : on_ck_complete object key_octets asked ≡ (ok tt, done)
    pub events_lem :
        done.events ≡ c.events ++ fetch_ck (ck_interest object c) ∷ on_success t content ∷ []

  -- The consumer knows nothing of the key and is not about to.
  pub record IsNew (object : Name) (c : Consumer) : Type 0 where
    pub not_cached : find object c.m_ck_enc_aes_cache ≡ none
    pub not_sent : in_flight object c ≡ false
    pub nobody_waits : waiting object c ≡ []

  delivered :
      (p : Producer) (draw : Draw) (key : ContentKey) (suffix : Name) (content : Bytes)
      (r : Produced) (t : ℕ) (c : Consumer) (support : AbeSupport)
      (linked : Linked p draw key suffix content r)
      → IsNew linked.ck_object c
      → decryption c.m_param_fetcher.m_abe_type c
          (with_enc (keyless linked.cipher) key.m_enc_aes_key)
        ≡ some (ok content, support)
      → Received linked.ck_object
          (concat_map (λ d. d.content) r.0)
          (concat_map (λ d. d.content) r.1)
          content
          t
          c
  delivered p draw key suffix content r t c support linked new d =
      let object = linked.ck_object in
      let task : PendingTask = record { cipher = keyless linked.cipher; callbacks = t } in
      record {
        asked = asking object task c;
        done = served_state object key.m_enc_aes_key content t support (asking object task c);
        data_lem = rw linked.data_packets.octets_lem (
            data_lem linked.cipher object linked.ck_last.0 t c linked.ck_last.1 linked.ck_last.2
              new.not_cached new.not_sent new.nobody_waits);
        key_lem = rw linked.ck_packets.octets_lem (
            key_lem key (keyless linked.cipher) object t content (asking object task c) support
              (rw (waiting, find-put_self object (task ∷ []) c.m_pending_callbacks)) d);
        events_lem =
            append_assoc c.events (fetch_ck (ck_interest object c) ∷ [])
              (on_success t content ∷ []);
      }

  pair_lem : {A S : Type 0} (p : Result A × S) (a : A) → p.0 ≡ ok a → p ≡ (ok a, p.1)
  pair_lem (x, s) a e = ap (λ y. (y, s)) e

  key_same :
      (scheme : Bytes) (params : PublicParams) (prv : PrivateKey) (key : ContentKey)
      (content : Bytes) (r : ℕ) (cipher : CipherText) (s : AbeSupport)
      → encrypt key content r ≡ ok cipher
      → (decrypt scheme params prv cipher s).0 ≡ ok content
      → (support : AbeSupport) × (decrypt scheme params prv
            (with_enc (keyless cipher) key.m_enc_aes_key)
            s
          ≡ (ok content, support))
  key_same scheme params prv key content r cipher s e h =
      let (_, _, same, _) = encrypt_inverted key content r cipher e in
      let q =
        same_object scheme params prv (with_enc (keyless cipher) key.m_enc_aes_key) cipher s
          (ap (λ (k : ContentKey). k.m_enc_aes_key) (sym same)) refl in
      (_, q ∙ pair_lem (decrypt scheme params prv cipher s) content h)

  cp_decryption :
      (c : Consumer) (params : PublicParams) (prv : PrivateKey) (cipher : CipherText)
      → c.m_param_fetcher.m_abe_type ≡ abe_type_cp_abe
      → c.m_param_fetcher.m_pub_params_cache ≡ params
      → c.m_key_cache ≡ prv
      → decryption c.m_param_fetcher.m_abe_type c cipher
        ≡ some (decrypt abe_type_cp_abe params prv cipher c.abe_support)
  unfolding cp_decrypt
  cp_decryption c params prv cipher e f g = rw (decryption, e, f, g)

  kp_decryption :
      (c : Consumer) (params : PublicParams) (prv : PrivateKey) (cipher : CipherText)
      → c.m_param_fetcher.m_abe_type ≡ abe_type_kp_abe
      → c.m_param_fetcher.m_pub_params_cache ≡ params
      → c.m_key_cache ≡ prv
      → decryption c.m_param_fetcher.m_abe_type c cipher
        ≡ some (decrypt abe_type_kp_abe params prv cipher c.abe_support)
  unfolding kp_decrypt
  kp_decryption c params prv cipher e f g = rw (decryption, e, f, g)

  -- `kpEncrypt` encrypts under the key that `kpContentKeyGen` makes, and `cpEncrypt` likewise.
  pub kp_encrypt_lem :
      (params : PublicParams) (attributes : List Bytes) (content : Bytes) (draw : Draw)
      (key : ContentKey) (cipher : CipherText)
      → kp_content_key_gen params attributes draw.key_seed draw.seal_seed ≡ ok key
      → encrypt key content draw.sym_seed ≡ ok cipher
      → kp_encrypt params attributes content draw.key_seed draw.seal_seed draw.sym_seed ≡ ok cipher
  unfolding kp_encrypt kp_content_key_gen
  kp_encrypt_lem params attributes content draw key cipher h e =
      elim (Result-cases (policy_string attributes)) [
        | inr (x, q) ↦ absurd (ground arith)
        | inl (s, q) ↦ ground arith
      ]

  pub cp_encrypt_lem :
      (params : PublicParams) (policy content : Bytes) (draw : Draw) (key : ContentKey)
      (cipher : CipherText)
      → cp_content_key_gen params policy draw.key_seed draw.seal_seed ≡ ok key
      → encrypt key content draw.sym_seed ≡ ok cipher
      → cp_encrypt params policy content draw.key_seed draw.seal_seed draw.sym_seed ≡ ok cipher
  unfolding cp_encrypt cp_content_key_gen
  cp_encrypt_lem params policy content draw key cipher h e = ground arith

  -- What an authority has given to a consumer of one scheme.
  pub record Equipped (scheme : Bytes) (params : PublicParams) (prv : PrivateKey) (c : Consumer)
      : Type 0 where
    pub abe_type : c.m_param_fetcher.m_abe_type ≡ scheme
    pub params_lem : c.m_param_fetcher.m_pub_params_cache ≡ params
    pub key_lem : c.m_key_cache ≡ prv

  module _ (secure : IsSecure) {limit : ℕ} (fit : OutputsFit limit) where
    -- CP-ABE, for linked packets.
    pub cp_packets_delivered :
        (r0 r1 : ℕ) (params : PublicParams) (master : MasterKey) (attributes : List Bytes)
        (s policy : Bytes) (prv : PrivateKey) (p : Producer) (draw : Draw) (key : ContentKey)
        (suffix : Name) (content : Bytes) (r : Produced) (t : ℕ) (c : Consumer)
        (linked : Linked p draw key suffix content r)
        → cp_init r0 ≡ ok (params, master)
        → policy_string attributes ≡ ok s
        → cp_prv_key_gen params master attributes r1 ≡ ok prv
        → cp_content_key_gen params policy draw.key_seed draw.seal_seed ≡ ok key
        → secure.satisfies abe_type_cp_abe s policy ≡ true
        → length content ≤ limit
        → Equipped abe_type_cp_abe params prv c
        → IsNew linked.ck_object c
        → Agrees c.abe_support linked.cipher
        → Received linked.ck_object
            (concat_map (λ d. d.content) r.0)
            (concat_map (λ d. d.content) r.1)
            content
            t
            c
    cp_packets_delivered r0 r1 params master attributes s policy prv p draw key suffix content r t c
          linked hi hs hk hc sat l eq new agrees =
        let made : cp_encrypt params policy content draw.key_seed draw.seal_seed draw.sym_seed
            ≡ ok linked.cipher =
          cp_encrypt_lem params policy content draw key linked.cipher hc linked.encrypted in
        let plain =
          cp_decrypt-cp_encrypt secure fit r0 r1 draw.key_seed draw.seal_seed draw.sym_seed params
            master attributes s policy content prv linked.cipher c.abe_support hi hs hk made sat l
            agrees in
        let (support, d) =
          key_same abe_type_cp_abe params prv key content draw.sym_seed linked.cipher c.abe_support
            linked.encrypted (unfold cp_decrypt in plain) in
        delivered p draw key suffix content r t c support linked new
          (cp_decryption c params prv _ eq.abe_type eq.params_lem eq.key_lem ∙ ap some d)

    -- KP-ABE, for linked packets.
    pub kp_packets_delivered :
        (r0 r1 : ℕ) (params : PublicParams) (master : MasterKey) (attributes : List Bytes)
        (s policy : Bytes) (prv : PrivateKey) (p : Producer) (draw : Draw) (key : ContentKey)
        (suffix : Name) (content : Bytes) (r : Produced) (t : ℕ) (c : Consumer)
        (linked : Linked p draw key suffix content r)
        → kp_init r0 ≡ ok (params, master)
        → policy_string attributes ≡ ok s
        → kp_prv_key_gen params master policy r1 ≡ ok prv
        → kp_content_key_gen params attributes draw.key_seed draw.seal_seed ≡ ok key
        → secure.satisfies abe_type_kp_abe policy s ≡ true
        → length content ≤ limit
        → Equipped abe_type_kp_abe params prv c
        → IsNew linked.ck_object c
        → Agrees c.abe_support linked.cipher
        → Received linked.ck_object
            (concat_map (λ d. d.content) r.0)
            (concat_map (λ d. d.content) r.1)
            content
            t
            c
    kp_packets_delivered r0 r1 params master attributes s policy prv p draw key suffix content r t c
          linked hi hs hk hc sat l eq new agrees =
        let made : kp_encrypt params attributes content draw.key_seed draw.seal_seed draw.sym_seed
            ≡ ok linked.cipher =
          kp_encrypt_lem params attributes content draw key linked.cipher hc linked.encrypted in
        let plain =
          kp_decrypt-kp_encrypt secure fit r0 r1 draw.key_seed draw.seal_seed draw.sym_seed params
            master attributes s policy content prv linked.cipher c.abe_support hi hs hk made sat l
            agrees in
        let (support, d) =
          key_same abe_type_kp_abe params prv key content draw.sym_seed linked.cipher c.abe_support
            linked.encrypted (unfold kp_decrypt in plain) in
        delivered p draw key suffix content r t c support linked new
          (kp_decryption c params prv _ eq.abe_type eq.params_lem eq.key_lem ∙ ap some d)
