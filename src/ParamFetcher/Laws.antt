-- ===== src/ParamFetcher/Laws.antt =====
-- param-fetcher.cpp: sequences of answers, and what an answer leaves behind.
use Prim.Native.Nat.{min}
use nac_abe.Common.{
  ℕ, ◌+◌, ◌-◌, ◌≤◌, ◌≡◌, ap, true, false, Option, none, some, List, [], ◌∷◌, All, length, arith,
  Bool-cases, inl, inr, leb,
}
use nac_abe.Common.Result.{Result, ok, err}
use nac_abe.Constants.{public_params}
use nac_abe.Ndn.{Ndn}
use nac_abe.Packets.{Interest}
use nac_abe.Security.{valid, invalid}
use nac_abe.ParamFetcher.{
  ParamFetcher, Answer, data_answer, nack_answer, timeout_answer, max_retries, on_answer,
}

module _ ⦃ndn : Ndn⦄ where
  open ndn use {at, size, read_component}

  -- A sequence of answers. An exception leaves no Interest pending, and so nothing more to answer.
  pub sent : List Answer → ParamFetcher → List Interest
  sent [] f = []
  sent (a ∷ rest) f =
      let (r, f') = on_answer a f in
      let later = sent rest f' in elim r [ err e ↦ [] | ok none ↦ later | ok (some i) ↦ i ∷ later ]

  abbrev pub IsFailure : Answer → Type 0
  IsFailure (data_answer d v) = ⊥
  IsFailure _ = Unit

  abbrev request : ParamFetcher → Interest
  request f = record f.m_interest_template {
    name = ndn.append f.m_attr_authority_prefix (ndn.generic public_params);
  }

  failure_retries :
      (a : Answer) (f : ParamFetcher)
      → IsFailure a
      → f.m_retry_count + 1 ≤ max_retries
      → (i : Interest) × (on_answer a f
          ≡ (ok (some i), record f { m_retry_count = f.m_retry_count + 1 }))
  unfolding on_answer
  failure_retries (data_answer d v) f h l = elim h [ ]
  failure_retries nack_answer f h l = (request f, ground arith)
  failure_retries timeout_answer f h l = (request f, ground arith)

  failure_stops :
      (a : Answer) (f : ParamFetcher)
      → IsFailure a
      → max_retries ≤ f.m_retry_count
      → (rest : List Answer) → sent (a ∷ rest) f ≡ []
  unfolding on_answer sent
  failure_stops (data_answer d v) f h l rest = elim h [ ]
  failure_stops nack_answer f h l rest = ground arith
  failure_stops timeout_answer f h l rest = ground arith

  sent_retry :
      (a : Answer) (f : ParamFetcher) (rest : List Answer) (i : Interest) (f' : ParamFetcher)
      → on_answer a f ≡ (ok (some i), f')
      → sent (a ∷ rest) f ≡ i ∷ sent rest f'
  unfolding sent
  sent_retry a f rest i f' e =
      rw (e, sent) (ap (λ (p : Result (Option Interest) × ParamFetcher). i ∷ sent rest p.1) e)

  nat_le : (a b : ℕ) → leb a b ≡ true → a ≤ b
  nat_le a b h = ground arith

  nat_lt : (a b : ℕ) → leb a b ≡ false → b + 1 ≤ a
  nat_lt a b h = ground arith

  -- After a run of NACKs and timeouts, an Interest has gone out for each of them until the counter
  -- reached ten, and none after that.
  pub length-sent :
      (answers : List Answer) (f : ParamFetcher)
      → All IsFailure answers
      → length (sent answers f) ≡ min (length answers) (max_retries - f.m_retry_count)
  length-sent [] f h = unfold sent in omega arith
  length-sent (a ∷ rest) f h = elim (Bool-cases (leb max_retries f.m_retry_count)) [
    | inl full ↦ omega (
      arith,
      ap length (failure_stops a f h.0 (ground arith) rest),
      nat_le max_retries f.m_retry_count full,
    )
    | inr room ↦
        let (i, e) = failure_retries a f h.0 (ground arith) in
        omega (
          arith,
          ap length (sent_retry a f rest i _ e),
          length-sent rest (record f { m_retry_count = f.m_retry_count + 1 }) h.1,
          nat_lt max_retries f.m_retry_count room,
        )
  ]

  -- Answers never take the counter past the limit.
  pub on_answer_bounded :
      (a : Answer) (f : ParamFetcher)
      → f.m_retry_count ≤ max_retries
      → (on_answer a f).1.m_retry_count ≤ max_retries
  unfolding on_answer
  on_answer_bounded (data_answer d (invalid info)) f h = omega arith
  on_answer_bounded (data_answer d valid) f h = ground arith
  on_answer_bounded nack_answer f h = ground arith
  on_answer_bounded timeout_answer f h = ground arith
