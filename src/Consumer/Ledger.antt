-- ===== src/Consumer/Ledger.antt =====
-- consumer.cpp: the fetches that `decryptContent` starts, and who waits for them.
use mathlib.Core.Path.{subst}
use nac_abe.Common.{
  ℕ, ◌+◌, Bytes, ◌≡◌, refl, sym, ap, ◌∙◌, true, false, ◌⊎◌, inl, inr, none, some, List, [], ◌∷◌,
  ◌++◌, arith, Option-cases, Bool-cases, is_some, ◌==◌, if◌then◌else◌,
}
use nac_abe.Common.Map.{
  Map, find, put, insert, find-put_self, find-put_ne, find-insert, find-insert_ne,
}
use nac_abe.Common.Result.{Result, ok, err, undefined}
use nac_abe.Ndn.{Ndn, name_eq}
use nac_abe.Packets.{Interest}
use nac_abe.Security.{Security}
use nac_abe.OpenAbe.{OpenAbe}
use nac_abe.Algo.Content.{CipherText}
use nac_abe.Consumer.State.{
  PendingTask, Event, on_success, on_error, fetch_data, fetch_ck, fetch_private_key, Consumer,
}
use nac_abe.Consumer.Fetch.{decryption, report, try_decrypt, waiting, ck_interest, seek_key}
use nac_abe.Consumer.Answers.{with_key, SameTables, try_decrypt-SameTables}
use nac_abe.Consumer.Flights.{in_flight}

module _ ⦃ndn : Ndn⦄ ⦃sec : Security⦄ ⦃abe : OpenAbe⦄ where
  open ndn use {Name, Block, from_wire}

  abbrev PairedAt : Map Name (Unit {0}) → Map Name (List PendingTask) → Name → Type 0
  PairedAt sent pending n =
      ((is_some (find n sent) ≡ false) × (find n pending ≡ none))
      ⊎ ((is_some (find n sent) ≡ true)
          × (t : PendingTask) × (ts : List PendingTask) × (find n pending ≡ some (t ∷ ts)))

  -- A key in flight has somebody who waits for it, and nobody waits for another.
  abbrev pub IsPaired : Consumer → Type 0
  IsPaired c = (n : Name) → PairedAt c.m_ck_interests_sent c.m_pending_callbacks n

  pub SameTables-IsPaired : (c c' : Consumer) → SameTables c c' → IsPaired c → IsPaired c'
  SameTables-IsPaired c c' h p n = rw (h.sent, h.pending) (p n)

  queued :
      (ts : List PendingTask) (t : PendingTask)
      → (u : PendingTask) × (us : List PendingTask) × (ts ++ t ∷ [] ≡ u ∷ us)
  queued [] t = (t, [], refl)
  queued (u ∷ us) t = (u, us ++ t ∷ [], refl)

  abbrev pub task : CipherText → ℕ → PendingTask
  task cipher callbacks = record { cipher = cipher; callbacks = callbacks }

  pub seek_key-flying :
      (cipher : CipherText) (n : Name) (t : ℕ) (c : Consumer)
      → find n c.m_ck_enc_aes_cache ≡ none
      → in_flight n c ≡ true
      → seek_key cipher n t c ≡ (
        ok tt,
        record c {
          m_pending_callbacks = put n (waiting n c ++ task cipher t ∷ []) c.m_pending_callbacks;
        },
      )
  unfolding seek_key
  seek_key-flying cipher n t c h k = ground arith

  pub seek_key_starts :
      (cipher : CipherText) (n : Name) (t : ℕ) (c : Consumer)
      → find n c.m_ck_enc_aes_cache ≡ none
      → in_flight n c ≡ false
      → seek_key cipher n t c ≡ (
        ok tt,
        record c {
          m_ck_interests_sent = insert n tt c.m_ck_interests_sent;
          m_pending_callbacks = put n (waiting n c ++ task cipher t ∷ []) c.m_pending_callbacks;
          events = c.events ++ fetch_ck (ck_interest n c) ∷ [];
        },
      )
  unfolding seek_key
  seek_key_starts cipher n t c h k = ground arith

  pub seek_key_cached :
      (cipher : CipherText) (n : Name) (t : ℕ) (c : Consumer) (key : Bytes)
      → find n c.m_ck_enc_aes_cache ≡ some key
      → (cipher' : CipherText) × (seek_key cipher n t c ≡ try_decrypt cipher' t c)
  unfolding seek_key
  seek_key_cached cipher n t c key h = (with_key cipher key, rw (h, seek_key))

  -- How many fetches of the key have been started.
  unfoldable pub fetches : Name → List Event → ℕ
  fetches n [] = 0
  fetches n (fetch_ck i ∷ rest) = (if i.name == n then 1 else 0) + fetches n rest
  fetches n (_ ∷ rest) = fetches n rest

  pub fetches-append :
      (n : Name) (a b : List Event) → fetches n (a ++ b) ≡ fetches n a + fetches n b
  unfolding fetches
  fetches-append n [] b = omega arith
  fetches-append n (fetch_ck i ∷ rest) b = omega (arith, fetches-append n rest b)
  fetches-append n (on_success t m ∷ rest) b = fetches-append n rest b
  fetches-append n (on_error t m ∷ rest) b = fetches-append n rest b
  fetches-append n (fetch_data i ∷ rest) b = fetches-append n rest b
  fetches-append n (fetch_private_key i ∷ rest) b = fetches-append n rest b

  one_more :
      (n : Name) (i : Interest) (events : List Event)
      → fetches n (events ++ fetch_ck i ∷ []) ≡ fetches n events + (if i.name == n then 1 else 0)
  one_more n i events = fetches-append n events _ ∙ (unfold fetches in omega arith)

  abbrev pub flying : Name → Consumer → ℕ
  flying n c = if in_flight n c then 1 else 0

  report-fetches :
      (n : Name) (t : ℕ) (r : Result Bytes) (c : Consumer)
      → fetches n (report t r c).1.events ≡ fetches n c.events
  unfolding report
  report-fetches n t (ok m) c = fetches-append n c.events _ ∙ (unfold fetches in omega arith)
  report-fetches n t (err undefined) c = refl
  report-fetches n t (err e) c = fetches-append n c.events _ ∙ (unfold fetches in omega arith)

  pub try_decrypt-fetches :
      (n : Name) (cipher : CipherText) (t : ℕ) (c : Consumer)
      → fetches n (try_decrypt cipher t c).1.events ≡ fetches n c.events
  unfolding try_decrypt
  try_decrypt-fetches n cipher t c =
      elim (Option-cases (decryption c.m_param_fetcher.m_abe_type c cipher)) [
        | inl e ↦
            rw (e, try_decrypt) (fetches-append n c.events _ ∙ (unfold fetches in omega arith))
        | inr ((r, s), e) ↦
            rw (e, try_decrypt) (report-fetches n t r (record c { abe_support = s }))
      ]

  -- Each fetch that a call of `decryptContent` starts puts its key in flight, and none is started
  -- for a key that is in flight.
  pub seek_key_ledger :
      (n m : Name) (cipher : CipherText) (t : ℕ) (c : Consumer)
      → fetches n (seek_key cipher m t c).1.events + flying n c
        ≡ fetches n c.events + flying n (seek_key cipher m t c).1
  seek_key_ledger n m cipher t c = elim (Option-cases (find m c.m_ck_enc_aes_cache)) [
    | inr (key, e) ↦
        let (cipher', q) = seek_key_cached cipher m t c key e in
        rw q (
          rw (try_decrypt-SameTables cipher' t c).sent
            (omega (arith, try_decrypt-fetches n cipher' t c)))
    | inl e ↦ elim (Bool-cases (in_flight m c)) [
      | inl f ↦ rw (seek_key-flying cipher m t c e f)
      | inr f ↦ rw (seek_key_starts cipher m t c e f) (
          ground (
            arith,
            one_more n (ck_interest m c) c.events,
            find-insert m n tt c.m_ck_interests_sent,
            ndn.name_beq_iff m n,
          ))
    ]
  ]

  added_at :
      (n m : Name) (sent sent' : Map Name (Unit {0})) (pending : Map Name (List PendingTask))
      (ts : List PendingTask) (t : PendingTask)
      → is_some (find m sent') ≡ true
      → ((m == n) ≡ false → find n sent' ≡ find n sent)
      → PairedAt sent pending n
      → PairedAt sent' (put m (ts ++ t ∷ []) pending) n
  added_at n m sent sent' pending ts t f same p = elim (Bool-cases (m == n)) [
    | inl e ↦
        let (u, us, q) = queued ts t in
        let q' : m ≡ n = (ndn.name_beq_iff m n).0 e in
        inr (
          subst (λ k. is_some (find k sent') ≡ true) q' f,
          u,
          us,
          ap (λ k. find k (put m (ts ++ t ∷ []) pending)) (sym q')
              ∙ (find-put_self m (ts ++ t ∷ []) pending ∙ ap some q),
        )
    | inr e ↦ rw (same e, find-put_ne m n (ts ++ t ∷ []) pending e) p
  ]

  -- `decryptContent` keeps a waiter for each key in flight, and none for the others.
  pub seek_key-IsPaired :
      (m : Name) (cipher : CipherText) (t : ℕ) (c : Consumer)
      → IsPaired c
      → IsPaired (seek_key cipher m t c).1
  seek_key-IsPaired m cipher t c p n = elim (Option-cases (find m c.m_ck_enc_aes_cache)) [
    | inr (key, e) ↦
        let (cipher', q) = seek_key_cached cipher m t c key e in
        rw q (SameTables-IsPaired c _ (try_decrypt-SameTables cipher' t c) p n)
    | inl e ↦ elim (Bool-cases (in_flight m c)) [
      | inl f ↦
          rw (seek_key-flying cipher m t c e f) (
            added_at n m _ _ c.m_pending_callbacks (waiting m c) (task cipher t) f (λ _. refl)
              (p n))
      | inr f ↦ rw (seek_key_starts cipher m t c e f) (
          added_at n m c.m_ck_interests_sent _ c.m_pending_callbacks (waiting m c) (task cipher t)
            (ground (arith, find-insert m m tt c.m_ck_interests_sent, ndn.name_beq_iff m m))
            (find-insert_ne m n tt c.m_ck_interests_sent) (p n))
    ]
  ]
