-- ===== src/Consumer/Runs.antt =====
-- consumer.cpp: what the end of a content key fetch leaves of the tables.
use mathlib.Core.Path.{subst}
use mathlib.Core.List.{append_assoc, append-nil}
use nac_abe.Common.{
  ℕ, ◌⊎◌, Bytes, ◌≡◌, refl, ap, ◌∙◌, List, [], ◌∷◌, ◌++◌, map, arith, inl, inr, ◌==◌, Bool-cases,
  Option-cases,
}
use nac_abe.Common.Map.{erase, find-erase, find-erase_ne}
use nac_abe.Common.Result.{Result, ok, err}
use nac_abe.Common.Exec.{Exec-cases}
use nac_abe.Ndn.{Ndn, name_eq}
use nac_abe.Security.{Security}
use nac_abe.OpenAbe.{OpenAbe}
use nac_abe.Algo.Content.{CipherText}
use nac_abe.Consumer.State.{PendingTask, Event, on_error, Consumer}
use nac_abe.Consumer.Fetch.{
  encrypted_aes_key, fan_out, waiting, fill_cache, on_ckey_data, on_ck_complete, on_ck_error,
  broadcast,
}
use nac_abe.Consumer.Answers.{with_key, try_decrypt-SameTables}
use nac_abe.Consumer.Ledger.{IsPaired, fetches, try_decrypt-fetches}

module _ ⦃ndn : Ndn⦄ ⦃sec : Security⦄ ⦃abe : OpenAbe⦄ where
  open ndn use {Name, Block, from_wire}

  abbrev pub refusal : Bytes → PendingTask → Event
  refusal message t = on_error t.callbacks message

  abbrev pub landed : Name → Consumer → Consumer
  landed n c = record c {
    m_ck_interests_sent = erase n c.m_ck_interests_sent;
    m_pending_callbacks = erase n c.m_pending_callbacks;
  }

  broadcast_lem :
      (message : Bytes) (ts : List PendingTask) (c : Consumer)
      → broadcast message ts c ≡ (ok tt, record c { events = c.events ++ map (refusal message) ts })
  unfolding broadcast
  broadcast_lem message [] c = rw (append-nil c.events)
  broadcast_lem message (t ∷ rest) c =
      broadcast_lem message rest
        (record c { events = c.events ++ on_error t.callbacks message ∷ [] })
      ∙ ap (λ l. (ok tt, record c { events = l }))
          (append_assoc c.events (on_error t.callbacks message ∷ []) (map (refusal message) rest))

  -- When the fetch of a content key fails, every waiter's error callback is called once with the
  -- message, in the order in which they came, and the key is forgotten: a later request fetches it
  -- again. Nothing else changes.
  pub on_ck_error_lem :
      (n : Name) (message : Bytes) (c : Consumer)
      → on_ck_error n message c
        ≡ (ok tt, landed n (record c { events = c.events ++ map (refusal message) (waiting n c) }))
  unfolding on_ck_error
  on_ck_error_lem n message c = rw (broadcast_lem message (waiting n c) c)

  pub landed-IsPaired : (n : Name) (c : Consumer) → IsPaired c → IsPaired (landed n c)
  landed-IsPaired n c p m = elim (Bool-cases (n == m)) [
    | inl e ↦ inl (
      ground (arith, find-erase n m c.m_ck_interests_sent),
      ground (arith, find-erase n m c.m_pending_callbacks),
    )
    | inr e ↦
        rw (find-erase_ne n m c.m_ck_interests_sent e, find-erase_ne n m c.m_pending_callbacks e)
          (p m)
  ]

  -- What is in flight, who waits, and the fetches that have been started, stay.
  pub record Quiet (c c' : Consumer) : Type 0 where
    pub sent : c'.m_ck_interests_sent ≡ c.m_ck_interests_sent
    pub pending : c'.m_pending_callbacks ≡ c.m_pending_callbacks
    pub no_fetch : (n : Name) → fetches n c'.events ≡ fetches n c.events

  Quiet-trans : (a b c : Consumer) → Quiet a b → Quiet b c → Quiet a c
  Quiet-trans a b c h k = record {
    sent = k.sent ∙ h.sent;
    pending = k.pending ∙ h.pending;
    no_fetch = λ n. k.no_fetch n ∙ h.no_fetch n;
  }

  Quiet-refl : (c : Consumer) → Quiet c c
  Quiet-refl c = record { sent = refl; pending = refl; no_fetch = λ n. refl }

  on_ckey_data-Quiet :
      (b : Block) (cipher : CipherText) (t : ℕ) (c : Consumer)
      → Quiet c (on_ckey_data b cipher t c).1
  unfolding on_ckey_data
  on_ckey_data-Quiet b cipher t c = elim (Option-cases (encrypted_aes_key b)) [
    | inl e ↦ rw e (Quiet-refl c)
    | inr (key, e) ↦ rw e (record {
      sent = (try_decrypt-SameTables (with_key cipher key) t c).sent;
      pending = (try_decrypt-SameTables (with_key cipher key) t c).pending;
      no_fetch = λ n. try_decrypt-fetches n (with_key cipher key) t c;
    })
  ]

  fan_out-Quiet : (b : Block) (ts : List PendingTask) (c : Consumer) → Quiet c (fan_out b ts c).1
  unfolding fan_out
  fan_out-Quiet b [] c = Quiet-refl c
  fan_out-Quiet b (t ∷ ts) c = elim (Exec-cases (on_ckey_data b t.cipher t.callbacks c)) [
    | inr (x, d, e) ↦ rw e (
        subst (λ (p : Result (Unit {0}) × Consumer). Quiet c p.1) e
          (on_ckey_data-Quiet b t.cipher t.callbacks c))
    | inl (u, d, e) ↦ rw e (
        Quiet-trans c d _
          (subst (λ (p : Result (Unit {0}) × Consumer). Quiet c p.1) e
            (on_ckey_data-Quiet b t.cipher t.callbacks c))
          (fan_out-Quiet b ts d))
  ]

  fill_cache-Quiet : (n : Name) (b : Block) (c : Consumer) → Quiet c (fill_cache n b c)
  fill_cache-Quiet n b c = elim (Option-cases (encrypted_aes_key b)) [
    | inl e ↦ rw (fill_cache, e) (Quiet-refl c)
    | inr (key, e) ↦
        rw (fill_cache, e) (record { sent = refl; pending = refl; no_fetch = λ m. refl })
  ]

  -- A completed fetch: the waiters are served, and then, unless that throws, the key is forgotten.
  pub complete_cases :
      (n : Name) (buffer : Bytes) (c : Consumer)
      → (d : Consumer) × Quiet c d
        × (((on_ck_complete n buffer c).1 ≡ d) ⊎ ((on_ck_complete n buffer c).1 ≡ landed n d))
  unfolding on_ck_complete
  complete_cases n buffer c = elim (Option-cases (from_wire buffer)) [
    | inl e ↦ (c, Quiet-refl c, inl (ground arith))
    | inr (b, e) ↦ served b (fill_cache n b c) (ground arith) (fill_cache-Quiet n b c)
  ]
    where
      served :
          (b : Block) (f : Consumer)
          → ((on_ck_complete n buffer c).1 ≡ (
              let p = fan_out b (waiting n c) f in elim p.0 [ ok u ↦ landed n p.1 | err x ↦ p.1 ]))
          → Quiet c f
          → (d : Consumer) × Quiet c d
            × (((on_ck_complete n buffer c).1 ≡ d) ⊎ ((on_ck_complete n buffer c).1 ≡ landed n d))
      served b f q quiet =
          let q' = Quiet-trans c f _ quiet (fan_out-Quiet b (waiting n c) f) in
          elim (Exec-cases (fan_out b (waiting n c) f)) [
            | inr (x, d, e) ↦ (
              d,
              subst (λ (p : Result (Unit {0}) × Consumer). Quiet c p.1) e q',
              inl (ground arith),
            )
            | inl (u, d, e) ↦ (
              d,
              subst (λ (p : Result (Unit {0}) × Consumer). Quiet c p.1) e q',
              inr (ground arith),
            )
          ]
