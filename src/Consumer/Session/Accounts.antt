-- ===== src/Consumer/Session/Accounts.antt =====
-- consumer.cpp: what each step of a session does to the callbacks and to the fetches.
use mathlib.Core.Path.{subst}
use nac_abe.Common.{
  ℕ, ◌+◌, Bytes, ◌≡◌, refl, ap, ◌∙◌, true, false, ◌⊎◌, inl, inr, [], ◌∷◌, ◌++◌, some, arith,
  Option-cases, Bool-cases, ◌==◌, if◌then◌else◌, nat_eq,
}
use nac_abe.Common.Map.{erase, find-erase}
use nac_abe.Common.Result.{ok, Result}
use nac_abe.Ndn.{Ndn, name_eq}
use nac_abe.Packets.{Interest, interest}
use nac_abe.Security.{Security}
use nac_abe.OpenAbe.{OpenAbe}
use nac_abe.Consumer.State.{Consumer, Event, on_error, fetch_data}
use nac_abe.Consumer.Fetch.{decrypt_content}
use nac_abe.Consumer.Consume.{
  not_ready, ready_for_decryption, consume_name, consume_interest, consume_block, on_data_complete,
  on_data_error,
}
use nac_abe.Consumer.Ledger.{IsPaired, fetches, fetches-append, flying}
use nac_abe.Consumer.Reach.{decrypt-IsPaired, decrypt_ledger, complete-IsPaired, error-IsPaired}
use nac_abe.Consumer.Session.Census.{
  own, count, times, count_middle, IsDistinct, answers, answers-append, answers-IsAnswer,
  fetches-AreAnswers,
}
use nac_abe.Consumer.Session.Balance.{Booked, decrypt_content-Booked}
use nac_abe.Consumer.Session.Ends.{Ended, Ended-Booked, on_ck_error-Ended, on_ck_complete-Ended}
use nac_abe.Consumer.Session.Steps.{
  Session, IsFetching, Step, refuses, consumes, at_hand, data_arrives, data_lost, key_arrives,
  key_lost, equips, IsAccounted,
}

module _ ⦃ndn : Ndn⦄ ⦃sec : Security⦄ ⦃abe : OpenAbe⦄ where
  open ndn use {Name, Block}

  -- A call that took the callbacks `asked` into account, beside the downloads that remain.
  booked :
      (s s' : Session) (more : ℕ → ℕ)
      → IsAccounted s
      → Booked more s.consumer s'.consumer
      → IsPaired s'.consumer
      → ((t : ℕ)
          → times t s'.asked + times t s.downloads
            ≡ times t s.asked + times t s'.downloads + more t)
      → ((n : Name) → fetches n s'.consumer.events ≡ count n s'.ended + flying n s'.consumer)
      → IsAccounted s'
  booked s s' more h b p lists f = record {
    distinct = b.distinct;
    paired = p;
    balance = λ t. omega (arith, h.balance t, b.balance t, lists t);
    fetched = f;
  }

  told :
      (c : Consumer) (t : ℕ) (message : Bytes)
      → IsDistinct c.m_pending_callbacks
      → Booked (λ u. own u t) c (record c { events = c.events ++ on_error t message ∷ [] })
  told c t message d = record {
    distinct = d;
    balance = λ u. omega (
      arith,
      answers-append u c.events (on_error t message ∷ []),
      answers-IsAnswer u t (on_error t message) (inr (message, refl)),
    );
  }

  -- What is told or asked of the network leaves the fetches of content keys as they are.
  unfetched :
      (s s' : Session)
      → IsAccounted s
      → s'.ended ≡ s.ended
      → s'.consumer.m_ck_interests_sent ≡ s.consumer.m_ck_interests_sent
      → ((n : Name) → fetches n s'.consumer.events ≡ fetches n s.consumer.events)
      → (n : Name) → fetches n s'.consumer.events ≡ count n s'.ended + flying n s'.consumer
  unfetched s s' h e sent same n = rw (e, sent) (same n ∙ h.fetched n)

  silent :
      (n : Name) (c : Consumer) (e : Event)
      → fetches n (e ∷ []) ≡ 0
      → fetches n (c.events ++ e ∷ []) ≡ fetches n c.events
  silent n c e z = fetches-append n c.events (e ∷ []) ∙ omega (arith, z)

  name_lem :
      (n : Name) (t : ℕ) (c : Consumer)
      → ready_for_decryption c ≡ false
      → consume_name n t c ≡ (ok tt, record c { events = c.events ++ on_error t not_ready ∷ [] })
  unfolding consume_name consume_interest
  name_lem n t c h = ground arith

  download : Name → Consumer → Interest
  download n c = record (interest n) { can_be_prefix = true; lifetime = some c.m_default_timeout }

  name_ready :
      (n : Name) (t : ℕ) (c : Consumer)
      → ready_for_decryption c ≡ true
      → consume_name n t c
        ≡ (ok tt, record c { events = c.events ++ fetch_data (download n c) ∷ [] })
  unfolding consume_name consume_interest download
  name_ready n t c h = ground arith

  block_cases :
      (b : Block) (t : ℕ) (c c' : Consumer)
      → consume_block b t c ≡ (ok tt, c')
      → (c' ≡ record c { events = c.events ++ on_error t not_ready ∷ [] })
        ⊎ (decrypt_content b t c ≡ (ok tt, c'))
  unfolding consume_block
  block_cases b t c c' h = elim (Bool-cases (ready_for_decryption c)) [
    | inl e ↦ inr (ground arith)
    | inr e ↦ inl (ground arith)
  ]

  complete_cases :
      (buffer : Bytes) (t : ℕ) (c c' : Consumer)
      → on_data_complete buffer t c ≡ (ok tt, c')
      → (b : Block) × (decrypt_content b t c ≡ (ok tt, c'))
  unfolding on_data_complete
  complete_cases buffer t c c' h = elim (Option-cases (ndn.from_wire buffer)) [
    | inl e ↦ absurd (ground arith)
    | inr (b, e) ↦ (b, ground arith)
  ]

  -- A call of `decryptContent` that returned.
  decrypted :
      (s s' : Session) (b : Block) (t : ℕ)
      → IsAccounted s
      → decrypt_content b t s.consumer ≡ (ok tt, s'.consumer)
      → s'.ended ≡ s.ended
      → ((u : ℕ)
          → times u s'.asked + times u s.downloads
            ≡ times u s.asked + times u s'.downloads + own u t)
      → IsAccounted s'
  decrypted s s' b t h e ends lists =
      let q : (decrypt_content b t s.consumer).1 ≡ s'.consumer =
        ap (λ (p : Result (Unit {0}) × Consumer). p.1) e in
      booked s s' (λ u. own u t) h (decrypt_content-Booked b t s.consumer s'.consumer h.distinct e)
        (subst IsPaired q (decrypt-IsPaired b t s.consumer h.paired)) lists
        (λ n. rw (ends, ← q) (omega (arith, h.fetched n, decrypt_ledger n b t s.consumer)))

  landed_flying :
      (n m : Name) (c c' : Consumer)
      → c'.m_ck_interests_sent ≡ erase n c.m_ck_interests_sent
      → flying m c' ≡ (if n == m then 0 else flying m c)
  landed_flying n m c c' e = rw e (ground (arith, find-erase n m c.m_ck_interests_sent))

  -- A fetch of a content key that ended.
  key_ended :
      (s s' : Session) (n : Name)
      → IsAccounted s
      → IsFetching n s
      → Ended n s.consumer s'.consumer
      → IsPaired s'.consumer
      → s'.ended ≡ n ∷ s.ended
      → ((u : ℕ)
          → times u s'.asked + times u s.downloads ≡ times u s.asked + times u s'.downloads + 0)
      → IsAccounted s'
  key_ended s s' n h f e p ends lists =
      booked s s' (λ u. 0) h (Ended-Booked n s.consumer s'.consumer h.distinct e) p lists
        (λ m. rw (ends, e.events_lem) (fetch m))
    where
      fetch :
          (m : Name)
          → fetches m (s.consumer.events ++ e.calls) ≡ count m (n ∷ s.ended) + flying m s'.consumer
      fetch m =
          unfold count in
          ground (
            arith,
            fetches-append m s.consumer.events e.calls,
            fetches-AreAnswers m _ e.calls e.answered,
            landed_flying n m s.consumer s'.consumer e.sent,
            h.fetched m,
            h.fetched n,
            ndn.name_beq_iff n m,
            ndn.name_beq_iff m n,
          )

  data_error_lem :
      (message : Bytes) (t : ℕ) (c : Consumer)
      → (m : Bytes) × ((on_data_error message t c).1
          ≡ record c { events = c.events ++ on_error t m ∷ [] })
  unfolding on_data_error
  data_error_lem message t c = (_, refl)

  unanswered :
      (u : ℕ) (i : Interest) (c : Consumer)
      → answers u (c.events ++ fetch_data i ∷ []) ≡ answers u c.events
  unanswered u i c = answers-append u c.events _ ∙ (unfold answers in omega arith)

  -- An error callback that is called from outside `decryptContent`.
  errs :
      (s s' : Session) (t : ℕ) (m : Bytes)
      → IsAccounted s
      → s'.consumer ≡ record s.consumer { events = s.consumer.events ++ on_error t m ∷ [] }
      → s'.ended ≡ s.ended
      → ((u : ℕ)
          → times u s'.asked + times u s.downloads
            ≡ times u s.asked + times u s'.downloads + own u t)
      → IsAccounted s'
  errs s s' t m h e ends lists =
      booked s s' (λ u. own u t) h (rw e (told s.consumer t m h.distinct)) (rw e h.paired) lists
        (unfetched s s' h ends (rw e)
          (λ n. rw e (silent n s.consumer (on_error t m) (unfold fetches in refl))))

  pub Step-IsAccounted : (s s' : Session) → IsAccounted s → Step s s' → IsAccounted s'
  unfolding count
  Step-IsAccounted s s' h (refuses n t r) =
      errs s s' t not_ready h
        (ap (λ (p : Result (Unit {0}) × Consumer). p.1) (name_lem n t s.consumer r)) refl
        (λ u. omega arith)
  Step-IsAccounted s s' h (consumes n t r) =
      let q : s'.consumer ≡ record s.consumer {
        events = s.consumer.events ++ fetch_data (download n s.consumer) ∷ [];
      } =
        ap (λ (p : Result (Unit {0}) × Consumer). p.1) (name_ready n t s.consumer r) in
      booked s s' (λ u. 0) h
        (rw q (record {
          distinct = h.distinct;
          balance = λ u. omega (arith, unanswered u (download n s.consumer) s.consumer);
        }))
        (rw q h.paired) (λ u. omega arith)
        (unfetched s s' h refl (rw q) (λ m.
          rw q (silent m s.consumer (fetch_data (download n s.consumer)) (unfold fetches in refl))))
  Step-IsAccounted s s' h (at_hand b t c e) = elim (block_cases b t s.consumer c e) [
    | inl q ↦ errs s s' t not_ready h q refl (λ u. omega arith)
    | inr q ↦ decrypted s s' b t h q refl (λ u. omega arith)
  ]
  Step-IsAccounted s s' h (data_arrives buffer t before after c q e) =
      let (b, e') = complete_cases buffer t s.consumer c e in
      decrypted s s' b t h e' refl
        (λ u. rw q (omega (arith, count_middle ⦃same = nat_eq⦄ u t before after)))
  Step-IsAccounted s s' h (data_lost message t before after q) =
      let (m, e) = data_error_lem message t s.consumer in
      errs s s' t m h e refl
        (λ u. rw q (omega (arith, count_middle ⦃same = nat_eq⦄ u t before after)))
  Step-IsAccounted s s' h (key_arrives n buffer c f e) =
      key_ended s s' n h f (on_ck_complete-Ended n buffer s.consumer c e)
        (subst IsPaired (ap (λ (p : Result (Unit {0}) × Consumer). p.1) e)
          (complete-IsPaired n buffer s.consumer h.paired))
        refl (λ u. omega arith)
  Step-IsAccounted s s' h (key_lost n message f) =
      key_ended s s' n h f (on_ck_error-Ended n message s.consumer)
        (error-IsPaired n message s.consumer h.paired) refl (λ u. omega arith)
  Step-IsAccounted s s' h (equips prv fetcher) = record {
    distinct = h.distinct;
    paired = h.paired;
    balance = h.balance;
    fetched = h.fetched;
  }
