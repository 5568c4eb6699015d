-- ===== src/Consumer/Session/Settling.antt =====
-- consumer.cpp: every request of a consumer, from its construction on.
use nac_abe.Common.{ℕ, ◌+◌, ◌≡◌, refl, ap, inl, inr, List, [], ◌∷◌, some, arith}
use nac_abe.Common.Map.{Map, find}
use nac_abe.Common.Result.{ok}
use nac_abe.Ndn.{Ndn, name_eq}
use nac_abe.Packets.{Interest}
use nac_abe.Security.{Security}
use nac_abe.OpenAbe.{OpenAbe}
use nac_abe.Algo.Decrypt.{AbeSupport}
use nac_abe.ParamFetcher.{fetch_public_params}
use nac_abe.Consumer.State.{PendingTask, Consumer}
use nac_abe.Consumer.Consume.{new_consumer}
use nac_abe.Consumer.Ledger.{fetches, flying}
use nac_abe.Consumer.Session.Census.{count, times, queued, answers}
use nac_abe.Consumer.Session.Accounts.{Step-IsAccounted}
use nac_abe.Consumer.Session.Steps.{Session, IsFetching, Reach, here, next, IsAccounted}

module _ ⦃ndn : Ndn⦄ ⦃sec : Security⦄ ⦃abe : OpenAbe⦄ where
  open ndn use {Name}

  -- A consumer that has just been made.
  abbrev pub opened : Consumer → Session
  opened c = record { consumer = c; asked = []; downloads = []; ended = [] }

  pub Reach-IsAccounted : (s s' : Session) → IsAccounted s → Reach s s' → IsAccounted s'
  Reach-IsAccounted s s' h here = h
  Reach-IsAccounted s s' h (next {u} r st) = Step-IsAccounted u s' (Reach-IsAccounted s u h r) st

  -- A new consumer has no calls, no waiters and no fetches.
  pub record IsBlank (c : Consumer) : Type 0 where
    pub no_events : c.events ≡ []
    pub no_waiters : c.m_pending_callbacks ≡ []
    pub no_flights : c.m_ck_interests_sent ≡ []

  pub new_consumer-IsBlank :
      (support : AbeSupport) (cert authority : sec.Certificate) (template : Interest) (c : Consumer)
      (i : Interest)
      → new_consumer support cert authority template ≡ ok (c, i)
      → IsBlank c
  unfolding new_consumer fetch_public_params
  new_consumer-IsBlank support cert authority template c i h = record {
    no_events = ground arith;
    no_waiters = ground arith;
    no_flights = ground arith;
  }

  pub opened-IsAccounted : (c : Consumer) → IsBlank c → IsAccounted (opened c)
  unfolding find answers queued count fetches
  opened-IsAccounted c b = record {
    distinct = rw b.no_waiters tt;
    paired = λ n. rw (b.no_waiters, b.no_flights) (inl (refl, refl));
    balance = λ t. rw (b.no_waiters, b.no_events) (omega arith);
    fetched = λ n. rw (b.no_events, b.no_flights) (omega arith);
  }

  -- From a new consumer on, no request is lost and none is answered twice: as long as no call throws,
  -- the times that a pair of callbacks was given to `consume` are those that one of the two was called,
  -- those that it waits for a content key, and the downloads of data for it that are under way; and the
  -- fetches of a content key that were started are those that have ended, and one more if the key is
  -- in flight.
  pub Reach-balance :
      (support : AbeSupport) (cert authority : sec.Certificate) (template : Interest) (c : Consumer)
      (i : Interest) (s : Session) (t : ℕ) (n : Name)
      → new_consumer support cert authority template ≡ ok (c, i)
      → Reach (opened c) s
      → (times t s.asked
          ≡ answers t s.consumer.events
            + queued t s.consumer.m_pending_callbacks
            + times t s.downloads)
        × (fetches n s.consumer.events ≡ count n s.ended + flying n s.consumer)
  Reach-balance support cert authority template c i s t n h r =
      let a =
        Reach-IsAccounted (opened c) s
          (opened-IsAccounted c (new_consumer-IsBlank support cert authority template c i h)) r in
      (a.balance t, a.fetched n)

  -- The first key of the table is being fetched.
  pub first-IsFetching :
      (u : Session) (n : Name) (ts : List PendingTask) (rest : Map Name (List PendingTask))
      → IsAccounted u
      → u.consumer.m_pending_callbacks ≡ (n, ts) ∷ rest
      → IsFetching n u
  first-IsFetching u n ts rest a e =
      let found : find n u.consumer.m_pending_callbacks ≡ some ts =
        rw e (unfold find in ground (arith, ndn.name_beq_iff n n)) in
      elim (a.paired n) [
        | inl (_, none_waits) ↦ absurd (ground arith)
        | inr (flies, _, _, _) ↦ ground (arith, a.fetched n)
      ]

  pub answered_by :
      (s : Session)
      → IsAccounted s
      → s.downloads ≡ []
      → s.consumer.m_pending_callbacks ≡ []
      → (t : ℕ) → answers t s.consumer.events ≡ times t s.asked
  unfolding queued count
  answered_by s a q e t = omega (arith, a.balance t, ap (queued t) e, ap (times t) q)

  nobody_waits :
      (s : Session)
      → IsAccounted s
      → ((n : Name) → ¬ IsFetching n s)
      → (m : Map Name (List PendingTask)) → s.consumer.m_pending_callbacks ≡ m
      → m ≡ []
  nobody_waits s a h [] e = refl
  nobody_waits s a h ((n, ts) ∷ rest) e = absurd (h n (first-IsFetching s n ts rest a e))

  -- As long as no call throws, whether the fetches of a consumer succeed or fail, once none is under
  -- way everyone has been answered: where a new consumer reaches, without a throw, a session without downloads and without content key fetches
  -- that have not ended, nobody waits, and one of every pair of callbacks has been called as often as
  -- the pair was given to `consume`.
  pub Reach-answered :
      (support : AbeSupport) (cert authority : sec.Certificate) (template : Interest) (c : Consumer)
      (i : Interest) (s : Session)
      → new_consumer support cert authority template ≡ ok (c, i)
      → Reach (opened c) s
      → s.downloads ≡ []
      → ((n : Name) → ¬ IsFetching n s)
      → (s.consumer.m_pending_callbacks ≡ [])
        × ((t : ℕ) → answers t s.consumer.events ≡ times t s.asked)
  Reach-answered support cert authority template c i s h r q f =
      let a =
        Reach-IsAccounted (opened c) s
          (opened-IsAccounted c (new_consumer-IsBlank support cert authority template c i h)) r in
      let e = nobody_waits s a f s.consumer.m_pending_callbacks refl in (e, answered_by s a q e)
