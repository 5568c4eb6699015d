-- ===== src/Consumer/Flights.antt =====
-- consumer.cpp: the keys in flight, and what the end of a fetch does to them.
use nac_abe.Common.{
  if◌then◌else◌, sym, ◌⊎◌, Bytes, ◌≡◌, ap, ◌∙◌, Bool, false, inl, inr, none, some, List, ◌∷◌, ◌++◌,
  arith, is_some, ◌==◌,
}
use nac_abe.Common.Map.{find, put, erase, find-erase, find-put_self, find-put_ne}
use nac_abe.Common.Result.{Exception, err, ok, tlv_error, undefined}
use nac_abe.Common.Exec.{Exec-cases}
use nac_abe.Ndn.{Ndn, name_eq}
use nac_abe.Security.{Security}
use nac_abe.OpenAbe.{OpenAbe}
use nac_abe.Consumer.State.{PendingTask, Event, Consumer}
use nac_abe.Consumer.Fetch.{encrypted_aes_key, fan_out, waiting, on_ck_complete}
use nac_abe.Consumer.Answers.{
  AreAnswers, SameTables, fan_out-AreAnswers, fan_out-undefined, fan_out_malformed,
}

module _ ⦃ndn : Ndn⦄ ⦃sec : Security⦄ ⦃abe : OpenAbe⦄ where
  open ndn use {Name, Block, from_wire}

  abbrev pub in_flight : Name → Consumer → Bool
  in_flight n c = is_some (find n c.m_ck_interests_sent)

  -- What a completed fetch with a proper block leaves.
  pub record Landed (n : Name) (key : Bytes) (c c' : Consumer) : Type 0 where
    pub answers : List Event
    pub answered : AreAnswers (waiting n c) answers
    pub events_lem : c'.events ≡ c.events ++ answers
    pub cached : find n c'.m_ck_enc_aes_cache ≡ some key
    pub others :
        (m : Name) → (n == m) ≡ false → find m c'.m_ck_enc_aes_cache ≡ find m c.m_ck_enc_aes_cache
    pub flies : (m : Name) → in_flight m c' ≡ (if n == m then false else in_flight m c)
    pub waits :
        (m : Name)
        → find m c'.m_pending_callbacks ≡ (if n == m then none else find m c.m_pending_callbacks)

  abbrev filled : Name → Bytes → Consumer → Consumer
  filled n key c = record c { m_ck_enc_aes_cache = put n key c.m_ck_enc_aes_cache }

  abbrev forgotten : Name → Consumer → Consumer
  forgotten n c = record c {
    m_ck_interests_sent = erase n c.m_ck_interests_sent;
    m_pending_callbacks = erase n c.m_pending_callbacks;
  }

  complete_value :
      (n : Name) (buffer : Bytes) (b : Block) (key : Bytes) (c : Consumer)
      → from_wire buffer ≡ some b
      → encrypted_aes_key b ≡ some key
      → on_ck_complete n buffer c ≡ (
          let p = fan_out b (waiting n c) (filled n key c) in
          elim p.0 [ ok u ↦ (ok tt, forgotten n p.1) | err x ↦ (err x, p.1) ])
  unfolding on_ck_complete
  complete_value n buffer b key c e k = ground arith

  forgotten-Landed :
      (n : Name) (key : Bytes) (c d : Consumer) (es : List Event)
      → AreAnswers (waiting n c) es
      → d.events ≡ c.events ++ es
      → SameTables (filled n key c) d
      → Landed n key c (forgotten n d)
  forgotten-Landed n key c d es are q same = record {
    answers = es;
    answered = are;
    events_lem = q;
    cached = ap (find n) same.cached ∙ find-put_self n key c.m_ck_enc_aes_cache;
    others = λ m e. ap (find m) same.cached ∙ find-put_ne n m key c.m_ck_enc_aes_cache e;
    flies = λ m. rw (sym same.sent) (ground (arith, find-erase n m d.m_ck_interests_sent));
    waits = λ m. rw (sym same.pending) (find-erase n m d.m_pending_callbacks);
  }

  complete_thrown :
      (n : Name) (buffer : Bytes) (b : Block) (key : Bytes) (c d : Consumer) (x : Exception)
      → from_wire buffer ≡ some b
      → encrypted_aes_key b ≡ some key
      → fan_out b (waiting n c) (filled n key c) ≡ (err x, d)
      → on_ck_complete n buffer c ≡ (err x, d)
  complete_thrown n buffer b key c d x e k h = ground (arith, complete_value n buffer b key c e k)

  complete_done :
      (n : Name) (buffer : Bytes) (b : Block) (key : Bytes) (c d : Consumer)
      → from_wire buffer ≡ some b
      → encrypted_aes_key b ≡ some key
      → fan_out b (waiting n c) (filled n key c) ≡ (ok tt, d)
      → on_ck_complete n buffer c ≡ (ok tt, forgotten n d)
  complete_done n buffer b key c d e k h = ground (arith, complete_value n buffer b key c e k)

  -- When the fetch of a content key ends with a block that has one, either some decryption is
  -- undefined behaviour, or the call returns and every waiter has had exactly one of its callbacks
  -- called, in the order in which they came; the key is cached and no longer in flight, nobody waits
  -- for it, and other keys are as they were.
  pub on_ck_complete-Landed :
      (n : Name) (buffer : Bytes) (b : Block) (key : Bytes) (c : Consumer)
      → from_wire buffer ≡ some b
      → encrypted_aes_key b ≡ some key
      → (c' : Consumer) × (((on_ck_complete n buffer c ≡ (ok tt, c')) × Landed n key c c')
          ⊎ (on_ck_complete n buffer c ≡ (err undefined, c')))
  on_ck_complete-Landed n buffer b key c e k =
      elim (Exec-cases (fan_out b (waiting n c) (filled n key c))) [
        | inl (u, d, e') ↦
            let (es, are, q, same) =
              fan_out-AreAnswers b (waiting n c) (filled n key c) d key k e' in
            (
              forgotten n d,
              inl (
                complete_done n buffer b key c d e k e',
                forgotten-Landed n key c d es are q same,
              ),
            )
        | inr (x, d, e') ↦ (
          d,
          inr (
              complete_thrown n buffer b key c d x e k e'
              ∙ ap (λ y. (err y, d))
                  (fan_out-undefined b (waiting n c) (filled n key c) d key x k e')),
        )
      ]

  -- A block without an encrypted content key makes the completion throw at the first waiter, and
  -- leaves the consumer as it was: the key is still in flight, and its waiters have no answer.
  pub on_ck_complete_malformed :
      (n : Name) (buffer : Bytes) (b : Block) (t : PendingTask) (ts : List PendingTask)
      (c : Consumer)
      → from_wire buffer ≡ some b
      → encrypted_aes_key b ≡ none
      → waiting n c ≡ t ∷ ts
      → on_ck_complete n buffer c ≡ (err tlv_error, c)
  unfolding on_ck_complete
  on_ck_complete_malformed n buffer b t ts c e k w = ground (arith, fan_out_malformed b t ts c k)
