-- ===== src/Consumer/Session/Ends.antt =====
-- consumer.cpp: the callbacks that the end of a content key fetch calls.
use mathlib.Core.Path.{subst}
use mathlib.Core.List.{append-nil}
use nac_abe.Common.{
  ◌≢◌, ◌≡◌, refl, sym, ap, ◌∙◌, Bytes, inl, inr, none, some, List, [], ◌∷◌, ◌++◌, map, arith,
  Option-cases, nat_eq,
}
use nac_abe.Common.Map.{erase}
use nac_abe.Common.Result.{ok, err, Exception, Result}
use nac_abe.Common.Exec.{Exec-cases}
use nac_abe.Ndn.{Ndn, name_eq}
use nac_abe.Security.{Security}
use nac_abe.OpenAbe.{OpenAbe}
use nac_abe.Consumer.State.{PendingTask, Event, Consumer}
use nac_abe.Consumer.Fetch.{
  waiting, encrypted_aes_key, fan_out, fill_cache, on_ck_complete, on_ck_error,
}
use nac_abe.Consumer.Answers.{AreAnswers, SameTables, fan_out-AreAnswers, fan_out_malformed}
use nac_abe.Consumer.Runs.{refusal, landed, on_ck_error_lem}
use nac_abe.Consumer.Session.Census.{
  among, queued-erase, IsDistinct, erase-IsDistinct, answers-append, answers-AreAnswers,
  refusals-AreAnswers,
}
use nac_abe.Consumer.Session.Balance.{Booked, waiting_lem}

module _ ⦃ndn : Ndn⦄ ⦃sec : Security⦄ ⦃abe : OpenAbe⦄ where
  open ndn use {Name, Block, from_wire}

  -- What a completed fetch leaves of the tables, and whom it answers.
  pub record Ended (n : Name) (c c' : Consumer) : Type 0 where
    pub calls : List Event
    pub answered : AreAnswers (waiting n c) calls
    pub events_lem : c'.events ≡ c.events ++ calls
    pub sent : c'.m_ck_interests_sent ≡ erase n c.m_ck_interests_sent
    pub pending : c'.m_pending_callbacks ≡ erase n c.m_pending_callbacks

  pub Ended-Booked :
      (n : Name) (c c' : Consumer)
      → IsDistinct c.m_pending_callbacks
      → Ended n c c'
      → Booked (λ u. 0) c c'
  Ended-Booked n c c' d h = record {
    distinct = rw h.pending (erase-IsDistinct n c.m_pending_callbacks d);
    balance = λ u.
        rw (h.pending, h.events_lem)
          (omega (
            arith,
            answers-append u c.events h.calls,
            answers-AreAnswers u (waiting n c) h.calls h.answered,
            queued-erase u n c.m_pending_callbacks d,
            ap (among u) (waiting_lem n c),
          ));
  }

  pub on_ck_error-Ended :
      (n : Name) (message : Bytes) (c : Consumer) → Ended n c (on_ck_error n message c).1
  on_ck_error-Ended n message c = rw (on_ck_error_lem n message c) (record {
    calls = map (refusal message) (waiting n c);
    answered = refusals-AreAnswers message (waiting n c);
    events_lem = refl;
    sent = refl;
    pending = refl;
  })

  served_value :
      (n : Name) (buffer : Bytes) (b : Block) (c : Consumer)
      → from_wire buffer ≡ some b
      → on_ck_complete n buffer c ≡ (
          let p = fan_out b (waiting n c) (fill_cache n b c) in
          elim p.0 [ ok u ↦ (ok tt, landed n p.1) | err x ↦ (err x, p.1) ])
  unfolding on_ck_complete
  served_value n buffer b c e = ground arith

  unread_block :
      (n : Name) (buffer : Bytes) (c c' : Consumer)
      → from_wire buffer ≡ none
      → on_ck_complete n buffer c ≢ (ok tt, c')
  unfolding on_ck_complete
  unread_block n buffer c c' e h = ground arith

  fill_cache_lem :
      (n : Name) (b : Block) (c : Consumer)
      → ((fill_cache n b c).events ≡ c.events)
        × ((fill_cache n b c).m_ck_interests_sent ≡ c.m_ck_interests_sent)
        × ((fill_cache n b c).m_pending_callbacks ≡ c.m_pending_callbacks)
  fill_cache_lem n b c = elim (Option-cases (encrypted_aes_key b)) [
    | inl e ↦ rw (fill_cache, e) (refl, refl, refl)
    | inr (key, e) ↦ rw (fill_cache, e) (refl, refl, refl)
  ]

  landed-Ended :
      (n : Name) (b : Block) (c d : Consumer) (es : List Event)
      → AreAnswers (waiting n c) es
      → d.events ≡ c.events ++ es
      → SameTables (fill_cache n b c) d
      → Ended n c (landed n d)
  landed-Ended n b c d es are q same = record {
    calls = es;
    answered = are;
    events_lem = q;
    sent = ap (erase n) (same.sent ∙ (fill_cache_lem n b c).1);
    pending = ap (erase n) (same.pending ∙ (fill_cache_lem n b c).2);
  }

  complete_ok :
      (n : Name) (buffer : Bytes) (b : Block) (c c' d : Consumer)
      → from_wire buffer ≡ some b
      → on_ck_complete n buffer c ≡ (ok tt, c')
      → fan_out b (waiting n c) (fill_cache n b c) ≡ (ok tt, d)
      → landed n d ≡ c'
  complete_ok n buffer b c c' d e h f = ground (arith, served_value n buffer b c e)

  complete_thrown :
      (n : Name) (buffer : Bytes) (b : Block) (c c' d : Consumer) (x : Exception)
      → from_wire buffer ≡ some b
      → fan_out b (waiting n c) (fill_cache n b c) ≡ (err x, d)
      → on_ck_complete n buffer c ≢ (ok tt, c')
  complete_thrown n buffer b c c' d x e f h = ground (arith, served_value n buffer b c e)

  -- The loop, where it ends: with a key, or with nobody to give it to.
  fan_out_ok :
      (b : Block) (n : Name) (ts : List PendingTask) (c d : Consumer)
      → fan_out b ts (fill_cache n b c) ≡ (ok tt, d)
      → (es : List Event) × AreAnswers ts es
        × (d.events ≡ (fill_cache n b c).events ++ es)
        × SameTables (fill_cache n b c) d
  fan_out_ok b n [] c d h =
      let q : fill_cache n b c ≡ d =
        unfold fan_out in ap (λ (p : Result (Unit {0}) × Consumer). p.1) h in
      (
        [],
        tt,
        ap (λ (k : Consumer). k.events) (sym q) ∙ sym (append-nil (fill_cache n b c).events),
        subst (SameTables (fill_cache n b c)) q
            (record { sent = refl; pending = refl; cached = refl }),
      )
  fan_out_ok b n (t ∷ ts) c d h = elim (Option-cases (encrypted_aes_key b)) [
    | inr (key, k) ↦ fan_out-AreAnswers b (t ∷ ts) (fill_cache n b c) d key k h
    | inl k ↦ absurd (ground (arith, fan_out_malformed b t ts (fill_cache n b c) k))
  ]

  pub on_ck_complete-Ended :
      (n : Name) (buffer : Bytes) (c c' : Consumer)
      → on_ck_complete n buffer c ≡ (ok tt, c')
      → Ended n c c'
  on_ck_complete-Ended n buffer c c' h = elim (Option-cases (from_wire buffer)) [
    | inl e ↦ absurd (unread_block n buffer c c' e h)
    | inr (b, e) ↦ elim (Exec-cases (fan_out b (waiting n c) (fill_cache n b c))) [
      | inr (x, d, f) ↦ absurd (complete_thrown n buffer b c c' d x e f h)
      | inl (u, d, f) ↦
          let (es, are, q, same) = fan_out_ok b n (waiting n c) c d f in
          subst (Ended n c) (complete_ok n buffer b c c' d e h f)
            (landed-Ended n b c d es are (q ∙ ap (λ l. l ++ es) (fill_cache_lem n b c).0) same)
    ]
  ]
