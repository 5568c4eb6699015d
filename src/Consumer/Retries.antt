-- ===== src/Consumer/Retries.antt =====
-- consumer.cpp: `handleTimeout` and `handleNack`, and the Interests that they send one after another.
-- Nothing else in the repository calls either of them.
use nac_abe.Common.{
  ℕ, zero, suc, ◌+◌, ◌-◌, ◌*◌, ◌^◌, ◌≤◌, Bytes, ◌≡◌, refl, ◌∙◌, true, ◌⊎◌, some, none, List, [],
  ◌∷◌, ◌++◌, length, arith,
}
use nac_abe.Common.Result.{ok, err}
use nac_abe.Ndn.{Ndn}
use nac_abe.Packets.{Interest}
use nac_abe.Security.{Security}
use nac_abe.Consumer.State.{on_error, Consumer}
use nac_abe.Consumer.Consume.{retry_factor, handle_nack, handle_timeout}

-- What comes of an Interest that was sent.
pub data Outcome : Type 0 where
  arrives : Outcome
  refused : Bytes → Outcome
  times_out : Outcome

abbrev pub timeouts : ℕ → List Outcome
timeouts zero = []
timeouts (suc n) = times_out ∷ timeouts n

retry_factor_lem : (max n e : ℕ) → e + n ≡ max + 1 → retry_factor max n ≡ 2 ^ e
unfolding retry_factor
retry_factor_lem max n e h = let q : max + 1 - n ≡ e = omega arith in rw q (ground arith)

module _ ⦃ndn : Ndn⦄ ⦃sec : Security⦄ where
  -- `n` Interests, each with twice the lifetime of the one before.
  abbrev pub doubling : Interest → ℕ → ℕ → ℕ → List Interest
  doubling i t e zero = []
  doubling i t e (suc n) =
      record i { can_be_prefix = true; lifetime = some (t * 2 ^ e) } ∷ doubling i t (suc e) n

  -- The Interests sent again, and the consumer.
  pub record Attempts : Type 0 where
    pub sent : List Interest
    pub consumer : Consumer

  module _ (nack_message timeout_message : Bytes) (callbacks : ℕ) where
    -- An Interest with `n` retries left meets these outcomes, its own first.
    unfoldable pub attempts : List Outcome → Interest → ℕ → Consumer → Attempts
    attempts [] i n c = record { sent = []; consumer = c }
    attempts (arrives ∷ rest) i n c = record { sent = []; consumer = c }
    attempts (refused reason ∷ rest) i n c = record {
      sent = [];
      consumer = (handle_nack nack_message reason callbacks c).1;
    }
    attempts (times_out ∷ rest) i n c =
        let (r, c') = handle_timeout i n timeout_message callbacks c in
        elim r [
          | ok (some (j, k)) ↦
              (let later = attempts rest j k c' in record later { sent = j ∷ later.sent })
          | ok none ↦ record { sent = []; consumer = c' }
          | err x ↦ record { sent = []; consumer = c' }
        ]

    abbrev again : Interest → ℕ → Consumer → Interest
    again i n c = record i {
      can_be_prefix = true;
      lifetime = some (c.m_default_timeout * retry_factor c.m_max_retries n);
    }

    attempts-again :
        (rest : List Outcome) (i : Interest) (n : ℕ) (c : Consumer)
        → attempts (times_out ∷ rest) i (suc n) c ≡ (
            let later = attempts rest (again i (suc n) c) n c in
            record later { sent = again i (suc n) c ∷ later.sent })
    unfolding attempts handle_timeout
    attempts-again rest i n c = ground arith

    attempts_given_up :
        (rest : List Outcome) (i : Interest) (c : Consumer)
        → attempts (times_out ∷ rest) i 0 c ≡ record {
          sent = [];
          consumer = record c { events = c.events ++ on_error callbacks timeout_message ∷ [] };
        }
    unfolding attempts handle_timeout
    attempts_given_up rest i c = ground arith

    -- A packet comes for one of the first `n + 1` Interests, and none before it has a NACK.
    pub data Arrived : ℕ → List Outcome → Type 0 where
      arrived : {n : ℕ} {rest : List Outcome} → Arrived n (arrives ∷ rest)
      arrived_later :
          {n : ℕ} {rest : List Outcome} → Arrived n rest → Arrived (suc n) (times_out ∷ rest)

    -- A NACK comes for one of them first, or all time out; the message tells which.
    pub data Failed : ℕ → List Outcome → Bytes → Type 0 where
      nacked :
          {n : ℕ} {rest : List Outcome} {reason : Bytes}
          → Failed n (refused reason ∷ rest) (nack_message ++ reason)
      exhausted : {rest : List Outcome} → Failed 0 (times_out ∷ rest) timeout_message
      failed_later :
          {n : ℕ} {rest : List Outcome} {m : Bytes}
          → Failed n rest m
          → Failed (suc n) (times_out ∷ rest) m

    -- Either a packet has come, and nothing has been called; or none has, and one error callback has
    -- been called, with the message for what went wrong. No more was sent than allowed.
    pub record Settled (n : ℕ) (os : List Outcome) (c : Consumer) (a : Attempts) : Type 0 where
      pub few : length a.sent ≤ n
      pub told :
          (Arrived n os × (a.consumer ≡ c))
          ⊎ ((m : Bytes) × Failed n os m
              × (a.consumer ≡ record c { events = c.events ++ on_error callbacks m ∷ [] }))

    -- Where all the Interests of a request time out, its `n` retries are sent, each with twice the
    -- lifetime of the one before, and then the error callback has the message. The first has the
    -- default lifetime times two to the power of `e`, which is one more than the retries that were
    -- used up before.
    pub attempts-timeouts :
        (i : Interest) (n e : ℕ) (c : Consumer)
        → e + n ≡ c.m_max_retries + 1
        → attempts (timeouts (suc n)) i n c ≡ record {
          sent = doubling i c.m_default_timeout e n;
          consumer = record c { events = c.events ++ on_error callbacks timeout_message ∷ [] };
        }
    attempts-timeouts i zero e c h = attempts_given_up [] i c
    attempts-timeouts i (suc n) e c h =
        let later = attempts-timeouts (again i (suc n) c) n (suc e) c (omega arith) in
        attempts-again (timeouts (suc n)) i n c
        ∙ rw (later, retry_factor_lem c.m_max_retries (suc n) e h) refl
