-- ===== src/Consumer/Answers.antt =====
-- consumer.cpp: the callbacks that the loop over the waiters calls.
use mathlib.Core.Path.{subst}
use mathlib.Core.List.{append_assoc, append-nil}
use nac_abe.Common.{
  ℕ, Bytes, text, ◌≡◌, refl, sym, ap, ◌∙◌, ◌⊎◌, inl, inr, none, some, List, [], ◌∷◌, ◌++◌, arith,
  Option-cases,
}
use nac_abe.Common.Result.{Result, ok, err, Exception, undefined, tlv_error, what}
use nac_abe.Common.Exec.{Exec-cases}
use nac_abe.Ndn.{Ndn, name_eq}
use nac_abe.Security.{Security}
use nac_abe.OpenAbe.{OpenAbe}
use nac_abe.Algo.Content.{CipherText, empty_content_key}
use nac_abe.Consumer.State.{PendingTask, Event, on_success, on_error, Consumer}
use nac_abe.Consumer.Fetch.{
  decryption, report, try_decrypt, encrypted_aes_key, on_ckey_data, fan_out,
}

module _ ⦃ndn : Ndn⦄ ⦃sec : Security⦄ ⦃abe : OpenAbe⦄ where
  open ndn use {Name, Block, from_wire}

  -- One of the task's two callbacks is called.
  abbrev pub IsAnswer : ℕ → Event → Type 0
  IsAnswer t e = ((m : Bytes) × (e ≡ on_success t m)) ⊎ ((m : Bytes) × (e ≡ on_error t m))

  abbrev pub AreAnswers : List PendingTask → List Event → Type 0
  AreAnswers [] [] = Unit
  AreAnswers (t ∷ ts) (e ∷ es) = IsAnswer t.callbacks e × AreAnswers ts es
  AreAnswers _ _ = ⊥

  -- What is in flight, who waits, and the cached keys.
  pub record SameTables (c c' : Consumer) : Type 0 where
    pub sent : c'.m_ck_interests_sent ≡ c.m_ck_interests_sent
    pub pending : c'.m_pending_callbacks ≡ c.m_pending_callbacks
    pub cached : c'.m_ck_enc_aes_cache ≡ c.m_ck_enc_aes_cache

  pub SameTables-trans : (a b c : Consumer) → SameTables a b → SameTables b c → SameTables a c
  SameTables-trans a b c h k = record {
    sent = k.sent ∙ h.sent;
    pending = k.pending ∙ h.pending;
    cached = k.cached ∙ h.cached;
  }

  report-SameTables : (t : ℕ) (r : Result Bytes) (c : Consumer) → SameTables c (report t r c).1
  unfolding report
  report-SameTables t (ok m) c = record { sent = refl; pending = refl; cached = refl }
  report-SameTables t (err undefined) c = record { sent = refl; pending = refl; cached = refl }
  report-SameTables t (err e) c = record { sent = refl; pending = refl; cached = refl }

  report-IsAnswer :
      (t : ℕ) (r : Result Bytes) (c c' : Consumer)
      → report t r c ≡ (ok tt, c')
      → (e : Event) × IsAnswer t e × (c'.events ≡ c.events ++ e ∷ [])
  unfolding report
  report-IsAnswer t (ok m) c c' h = (on_success t m, inl (m, refl), ground arith)
  report-IsAnswer t (err undefined) c c' h = cc
  report-IsAnswer t (err e) c c' h = (on_error t (what e), inr (what e, refl), ground arith)

  pub try_decrypt-SameTables :
      (cipher : CipherText) (t : ℕ) (c : Consumer) → SameTables c (try_decrypt cipher t c).1
  unfolding try_decrypt
  try_decrypt-SameTables cipher t c =
      elim (Option-cases (decryption c.m_param_fetcher.m_abe_type c cipher)) [
        | inl e ↦ rw (e, try_decrypt) (record { sent = refl; pending = refl; cached = refl })
        | inr ((r, s), e) ↦
            rw (e, try_decrypt)
              (SameTables-trans _ (record c { abe_support = s }) _
                (record { sent = refl; pending = refl; cached = refl })
                (report-SameTables t r (record c { abe_support = s })))
      ]

  pub try_decrypt-IsAnswer :
      (cipher : CipherText) (t : ℕ) (c c' : Consumer)
      → try_decrypt cipher t c ≡ (ok tt, c')
      → (e : Event) × IsAnswer t e × (c'.events ≡ c.events ++ e ∷ [])
  unfolding try_decrypt
  try_decrypt-IsAnswer cipher t c c' h =
      elim (Option-cases (decryption c.m_param_fetcher.m_abe_type c cipher)) [
        | inl e ↦ (on_error t (text "Unsupported ABE type"), inr (_, refl), ground arith)
        | inr ((r, s), e) ↦
            report-IsAnswer t r (record c { abe_support = s }) c' (rw (e, try_decrypt) at h)
      ]

  abbrev pub with_key : CipherText → Bytes → CipherText
  with_key cipher key = record cipher {
    m_content_key = record empty_content_key { m_enc_aes_key = key };
  }

  fan_out_step :
      (b : Block) (t : PendingTask) (ts : List PendingTask) (c d : Consumer) (key : Bytes)
      → encrypted_aes_key b ≡ some key
      → try_decrypt (with_key t.cipher key) t.callbacks c ≡ (ok tt, d)
      → fan_out b (t ∷ ts) c ≡ fan_out b ts d
  unfolding fan_out on_ckey_data
  fan_out_step b t ts c d key e h = ground arith

  fan_out_thrown :
      (b : Block) (t : PendingTask) (ts : List PendingTask) (c d : Consumer) (key : Bytes)
      (x : Exception)
      → encrypted_aes_key b ≡ some key
      → try_decrypt (with_key t.cipher key) t.callbacks c ≡ (err x, d)
      → fan_out b (t ∷ ts) c ≡ (err x, d)
  unfolding fan_out on_ckey_data
  fan_out_thrown b t ts c d key x e h = ground arith

  pub fan_out_malformed :
      (b : Block) (t : PendingTask) (ts : List PendingTask) (c : Consumer)
      → encrypted_aes_key b ≡ none
      → fan_out b (t ∷ ts) c ≡ (err tlv_error, c)
  unfolding fan_out on_ckey_data
  fan_out_malformed b t ts c e = ground arith

  -- Whatever comes of the loop: if it ends, every waiter has had one callback called, in the order
  -- of the queue.
  pub fan_out-AreAnswers :
      (b : Block) (ts : List PendingTask) (c c' : Consumer) (key : Bytes)
      → encrypted_aes_key b ≡ some key
      → fan_out b ts c ≡ (ok tt, c')
      → (es : List Event) × AreAnswers ts es × (c'.events ≡ c.events ++ es) × SameTables c c'
  fan_out-AreAnswers b [] c c' key e h =
      unfold fan_out in
      (
        [],
        tt,
        ap (λ (p : Result (Unit {0}) × Consumer). p.1.events) (sym h) ∙ sym (append-nil c.events),
        record {
          sent = ap (λ (p : Result (Unit {0}) × Consumer). p.1.m_ck_interests_sent) (sym h);
          pending = ap (λ (p : Result (Unit {0}) × Consumer). p.1.m_pending_callbacks) (sym h);
          cached = ap (λ (p : Result (Unit {0}) × Consumer). p.1.m_ck_enc_aes_cache) (sym h);
        },
      )
  fan_out-AreAnswers b (t ∷ ts) c c' key e h =
      elim (Exec-cases (try_decrypt (with_key t.cipher key) t.callbacks c)) [
        | inr (x, d, e') ↦ absurd (ground (arith, fan_out_thrown b t ts c d key x e e'))
        | inl (u, d, e') ↦
            let (es, are, q, same) =
              fan_out-AreAnswers b ts d c' key e (sym (fan_out_step b t ts c d key e e') ∙ h) in
            let (ev, is, q') = try_decrypt-IsAnswer (with_key t.cipher key) t.callbacks c d e' in
            (
              ev ∷ es,
              (is, are),
              q ∙ ap (λ l. l ++ es) q' ∙ append_assoc c.events (ev ∷ []) es,
              SameTables-trans c d c'
                  (subst (λ (p : Result (Unit {0}) × Consumer). SameTables c p.1) e'
                    (try_decrypt-SameTables (with_key t.cipher key) t.callbacks c))
                  same,
            )
      ]

  report_undefined :
      (t : ℕ) (r : Result Bytes) (c d : Consumer) (x : Exception)
      → report t r c ≡ (err x, d)
      → x ≡ undefined
  unfolding report
  report_undefined t (ok m) c d x h = ground arith
  report_undefined t (err undefined) c d x h = ground arith
  report_undefined t (err e) c d x h = ground arith

  try_decrypt-undefined :
      (cipher : CipherText) (t : ℕ) (c d : Consumer) (x : Exception)
      → try_decrypt cipher t c ≡ (err x, d)
      → x ≡ undefined
  unfolding try_decrypt
  try_decrypt-undefined cipher t c d x h =
      elim (Option-cases (decryption c.m_param_fetcher.m_abe_type c cipher)) [
        | inl e ↦ absurd (ground arith)
        | inr ((r, s), e) ↦
            report_undefined t r (record c { abe_support = s }) d x (rw (e, try_decrypt) at h)
      ]

  -- The loop throws only what is undefined.
  pub fan_out-undefined :
      (b : Block) (ts : List PendingTask) (c d : Consumer) (key : Bytes) (x : Exception)
      → encrypted_aes_key b ≡ some key
      → fan_out b ts c ≡ (err x, d)
      → x ≡ undefined
  fan_out-undefined b [] c d key x e h = absurd (unfold fan_out in ground arith)
  fan_out-undefined b (t ∷ ts) c d key x e h =
      elim (Exec-cases (try_decrypt (with_key t.cipher key) t.callbacks c)) [
        | inr (y, c', e') ↦
            let q = try_decrypt-undefined (with_key t.cipher key) t.callbacks c c' y e' in
            ground (arith, fan_out_thrown b t ts c c' key y e e')
        | inl (u, c', e') ↦
            fan_out-undefined b ts c' d key x e (sym (fan_out_step b t ts c c' key e e') ∙ h)
      ]
