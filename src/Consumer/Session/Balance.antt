-- ===== src/Consumer/Session/Balance.antt =====
-- consumer.cpp: what `decryptContent` does to the callbacks.
use mathlib.Core.Path.{subst}
use nac_abe.Common.{
  ℕ, ◌+◌, ◌≡◌, sym, ap, ◌∙◌, inl, inr, [], ◌∷◌, ◌++◌, arith, Option-cases, Bool-cases, nat_eq,
}
use nac_abe.Common.Map.{find, put}
use nac_abe.Common.Result.{ok, Result, Result-cases}
use nac_abe.Ndn.{Ndn, name_eq}
use nac_abe.Security.{Security}
use nac_abe.OpenAbe.{OpenAbe}
use nac_abe.Algo.Content.{CipherText}
use nac_abe.Consumer.State.{PendingTask, fetch_ck, Consumer}
use nac_abe.Consumer.Fetch.{
  waiting, ck_interest, seek_key, read_content, normalize_ck_key, decrypt_content, try_decrypt,
}
use nac_abe.Consumer.Answers.{try_decrypt-IsAnswer, try_decrypt-SameTables}
use nac_abe.Consumer.Flights.{in_flight}
use nac_abe.Consumer.Ledger.{task, seek_key-flying, seek_key_starts, seek_key_cached}
use nac_abe.Consumer.Session.Census.{
  own, among, among-append, queue, queued, queued-put, IsDistinct, put-IsDistinct, answers,
  answers-append, answers-IsAnswer,
}

module _ ⦃ndn : Ndn⦄ ⦃sec : Security⦄ ⦃abe : OpenAbe⦄ where
  open ndn use {Name, Block, from_wire}

  -- The calls of callbacks and the waiters are those of before, and `asked` more.
  pub record Booked (asked : ℕ → ℕ) (c c' : Consumer) : Type 0 where
    pub distinct : IsDistinct c'.m_pending_callbacks
    pub balance :
        (u : ℕ)
        → answers u c'.events + queued u c'.m_pending_callbacks
          ≡ answers u c.events + queued u c.m_pending_callbacks + asked u

  try_decrypt-Booked :
      (cipher : CipherText) (t : ℕ) (c c' : Consumer)
      → IsDistinct c.m_pending_callbacks
      → try_decrypt cipher t c ≡ (ok tt, c')
      → Booked (λ u. own u t) c c'
  try_decrypt-Booked cipher t c c' d h =
      let (e, is, q) = try_decrypt-IsAnswer cipher t c c' h in
      let same : c'.m_pending_callbacks ≡ c.m_pending_callbacks =
        ap (λ (p : Result (Unit {0}) × Consumer). p.1.m_pending_callbacks) (sym h)
        ∙ (try_decrypt-SameTables cipher t c).pending in
      record {
        distinct = rw same d;
        balance = λ u.
            rw (same, q)
              (omega (arith, answers-append u c.events (e ∷ []), answers-IsAnswer u t e is));
      }

  pub waiting_lem : (n : Name) (c : Consumer) → waiting n c ≡ queue (find n c.m_pending_callbacks)
  waiting_lem n c = elim (Option-cases (find n c.m_pending_callbacks)) [
    | inl e ↦ rw (waiting, e)
    | inr (ts, e) ↦ rw (waiting, e)
  ]

  one : (u : ℕ) (t : PendingTask) → among u (t ∷ []) ≡ own u t.callbacks
  unfolding among
  one u t = omega arith

  pushed :
      (cipher : CipherText) (n : Name) (t u : ℕ) (c : Consumer)
      → IsDistinct c.m_pending_callbacks
      → queued u (put n (waiting n c ++ task cipher t ∷ []) c.m_pending_callbacks)
        ≡ queued u c.m_pending_callbacks + own u t
  pushed cipher n t u c d = omega (
    arith,
    queued-put u n (waiting n c ++ task cipher t ∷ []) c.m_pending_callbacks d,
    among-append u (waiting n c) (task cipher t ∷ []),
    one u (task cipher t),
    ap (among u) (waiting_lem n c),
  )

  unread :
      (u : ℕ) (n : Name) (c : Consumer)
      → answers u (c.events ++ fetch_ck (ck_interest n c) ∷ []) ≡ answers u c.events
  unread u n c = answers-append u c.events _ ∙ (unfold answers in omega arith)

  seek_key-Booked :
      (cipher : CipherText) (n : Name) (t : ℕ) (c c' : Consumer)
      → IsDistinct c.m_pending_callbacks
      → seek_key cipher n t c ≡ (ok tt, c')
      → Booked (λ u. own u t) c c'
  seek_key-Booked cipher n t c c' d h = elim (Option-cases (find n c.m_ck_enc_aes_cache)) [
    | inr (key, e) ↦
        let (cipher', q) = seek_key_cached cipher n t c key e in
        try_decrypt-Booked cipher' t c c' d (sym q ∙ h)
    | inl e ↦ elim (Bool-cases (in_flight n c)) [
      | inl f ↦
          subst (Booked (λ u. own u t) c)
            (ap (λ (p : Result (Unit {0}) × Consumer). p.1)
              (sym (seek_key-flying cipher n t c e f) ∙ h))
            (record {
              distinct = put-IsDistinct n _ c.m_pending_callbacks d;
              balance = λ u. omega (arith, pushed cipher n t u c d);
            })
      | inr f ↦
          subst (Booked (λ u. own u t) c)
            (ap (λ (p : Result (Unit {0}) × Consumer). p.1)
              (sym (seek_key_starts cipher n t c e f) ∙ h))
            (record {
              distinct = put-IsDistinct n _ c.m_pending_callbacks d;
              balance = λ u. omega (arith, pushed cipher n t u c d, unread u n c);
            })
    ]
  ]

  -- `decryptContent`, where it returns, takes its callbacks into account once: it has called one of
  -- them, or they wait.
  pub decrypt_content-Booked :
      (b : Block) (t : ℕ) (c c' : Consumer)
      → IsDistinct c.m_pending_callbacks
      → decrypt_content b t c ≡ (ok tt, c')
      → Booked (λ u. own u t) c c'
  unfolding decrypt_content
  decrypt_content-Booked b t c c' d h = elim (Result-cases (read_content b)) [
    | inr (x, e) ↦ absurd (ground arith)
    | inl ((cipher, m), e) ↦ seek_key-Booked cipher (normalize_ck_key m) t c c' d (ground arith)
  ]
