-- ===== src/Consumer/Reach.antt =====
-- consumer.cpp: sequences of `decryptContent` and of ends of fetches.
use mathlib.Core.Path.{subst}
use nac_abe.Common.{
  ℕ, ◌+◌, ◌≤◌, ◌⊎◌, Bytes, ◌≡◌, refl, sym, ap, List, [], ◌∷◌, ◌++◌, map, arith, inl, inr, ◌==◌,
  if◌then◌else◌, is_some,
}
use nac_abe.Common.Map.{find, find-erase}
use nac_abe.Common.Result.{Result, Result-cases}
use nac_abe.Ndn.{Ndn, name_eq}
use nac_abe.Security.{Security}
use nac_abe.OpenAbe.{OpenAbe}
use nac_abe.Algo.Content.{CipherText}
use nac_abe.Consumer.State.{PendingTask, Consumer}
use nac_abe.Consumer.Fetch.{
  normalize_ck_key, read_content, waiting, seek_key, decrypt_content, on_ck_complete, on_ck_error,
}
use nac_abe.Consumer.Ledger.{
  IsPaired, fetches, fetches-append, flying, seek_key_ledger, seek_key-IsPaired,
}
use nac_abe.Consumer.Runs.{Quiet, landed, landed-IsPaired, refusal, on_ck_error_lem, complete_cases}

module _ ⦃ndn : Ndn⦄ ⦃sec : Security⦄ ⦃abe : OpenAbe⦄ where
  open ndn use {Name, Block}

  abbrev pub ended : Name → Name → ℕ
  ended n m = if m == n then 1 else 0

  -- A run from one state to another, and how many ends of fetches of the key it has: `decryptContent`
  -- with any block, and ends of content key fetches with any octets or message, whether or not a
  -- call throws.
  pub data Run (n : Name) : ℕ → Consumer → Consumer → Type 0 where
    start : (c : Consumer) → Run n 0 c c
    decrypts :
        (k : ℕ) (c c' : Consumer) (b : Block) (t : ℕ)
        → Run n k c c'
        → Run n k c (decrypt_content b t c').1
    completes :
        (k : ℕ) (c c' : Consumer) (m : Name) (buffer : Bytes)
        → Run n k c c'
        → Run n (ended n m + k) c (on_ck_complete m buffer c').1
    fails :
        (k : ℕ) (c c' : Consumer) (m : Name) (message : Bytes)
        → Run n k c c'
        → Run n (ended n m + k) c (on_ck_error m message c').1

  decrypt_cases :
      (b : Block) (t : ℕ) (c : Consumer)
      → ((decrypt_content b t c).1 ≡ c)
        ⊎ ((cipher : CipherText) × (m : Name) × ((decrypt_content b t c).1
              ≡ (seek_key cipher m t c).1))
  unfolding decrypt_content
  decrypt_cases b t c = elim (Result-cases (read_content b)) [
    | inr (x, e) ↦ inl (rw e)
    | inl ((cipher, m), e) ↦ inr (cipher, normalize_ck_key m, rw e)
  ]

  Quiet-IsPaired : (c d : Consumer) → Quiet c d → IsPaired c → IsPaired d
  Quiet-IsPaired c d q p n = rw (q.sent, q.pending) (p n)

  pub decrypt-IsPaired :
      (b : Block) (t : ℕ) (c : Consumer) → IsPaired c → IsPaired (decrypt_content b t c).1
  decrypt-IsPaired b t c p = elim (decrypt_cases b t c) [
    | inl e ↦ subst IsPaired (sym e) p
    | inr (cipher, m, e) ↦ subst IsPaired (sym e) (seek_key-IsPaired m cipher t c p)
  ]

  pub complete-IsPaired :
      (m : Name) (buffer : Bytes) (c : Consumer)
      → IsPaired c
      → IsPaired (on_ck_complete m buffer c).1
  complete-IsPaired m buffer c p =
      let (d, q, cases) = complete_cases m buffer c in
      let p' = Quiet-IsPaired c d q p in
      elim cases [
        | inl e ↦ subst IsPaired (sym e) p'
        | inr e ↦ subst IsPaired (sym e) (landed-IsPaired m d p')
      ]

  pub error-IsPaired :
      (m : Name) (message : Bytes) (c : Consumer)
      → IsPaired c
      → IsPaired (on_ck_error m message c).1
  error-IsPaired m message c p =
      subst (λ (r : Result (Unit {0}) × Consumer). IsPaired r.1) (sym (on_ck_error_lem m message c))
        (landed-IsPaired m (record c { events = c.events ++ map (refusal message) (waiting m c) })
          p)

  -- In every run that begins with a waiter for each key in flight and none for the others, this
  -- stays so: whatever is answered, and also where a call throws.
  pub Run-IsPaired : (n : Name) (k : ℕ) (c c' : Consumer) → IsPaired c → Run n k c c' → IsPaired c'
  Run-IsPaired n k c c' p (start _) = p
  Run-IsPaired n k c c' p (decrypts _ _ d b t r) = decrypt-IsPaired b t d (Run-IsPaired n _ c d p r)
  Run-IsPaired n k c c' p (completes _ _ d m buffer r) =
      complete-IsPaired m buffer d (Run-IsPaired n _ c d p r)
  Run-IsPaired n k c c' p (fails _ _ d m message r) =
      error-IsPaired m message d (Run-IsPaired n _ c d p r)

  pub decrypt_ledger :
      (n : Name) (b : Block) (t : ℕ) (c : Consumer)
      → fetches n (decrypt_content b t c).1.events + flying n c
        ≡ fetches n c.events + flying n (decrypt_content b t c).1
  decrypt_ledger n b t c = elim (decrypt_cases b t c) [
    | inl e ↦ rw e
    | inr (cipher, m, e) ↦ rw e (seek_key_ledger n m cipher t c)
  ]

  landed-flying : (n m : Name) (c : Consumer) → flying n c ≤ flying n (landed m c) + ended n m
  landed-flying n m c = ground (arith, find-erase m n c.m_ck_interests_sent)

  complete_ledger :
      (n m : Name) (buffer : Bytes) (c : Consumer)
      → (fetches n (on_ck_complete m buffer c).1.events ≡ fetches n c.events)
        × (flying n c ≤ flying n (on_ck_complete m buffer c).1 + ended n m)
  complete_ledger n m buffer c =
      let (d, q, cases) = complete_cases m buffer c in
      let same : flying n d ≡ flying n c = ap (λ s. if is_some (find n s) then 1 else 0) q.sent in
      elim cases [
        | inl e ↦ rw e (q.no_fetch n, omega (arith, same))
        | inr e ↦ rw e (q.no_fetch n, omega (arith, same, landed-flying n m d))
      ]

  refusals :
      (n : Name) (message : Bytes) (ts : List PendingTask)
      → fetches n (map (refusal message) ts) ≡ 0
  unfolding fetches
  refusals n message [] = refl
  refusals n message (t ∷ ts) = refusals n message ts

  error_ledger :
      (n m : Name) (message : Bytes) (c : Consumer)
      → (fetches n (on_ck_error m message c).1.events ≡ fetches n c.events)
        × (flying n c ≤ flying n (on_ck_error m message c).1 + ended n m)
  error_ledger n m message c = rw (on_ck_error_lem m message c) (
    omega (
      arith,
      fetches-append n c.events (map (refusal message) (waiting m c)),
      refusals n message (waiting m c),
    ),
    landed-flying n m (record c { events = c.events ++ map (refusal message) (waiting m c) }),
  )

  -- In every run, the fetches of a content key that have been started are at most those that were
  -- in flight or have ended, one in flight at a time: concurrent requests for a key share a fetch.
  pub Run-fetches :
      (n : Name) (k : ℕ) (c c' : Consumer)
      → Run n k c c'
      → fetches n c'.events + flying n c ≤ fetches n c.events + flying n c' + k
  Run-fetches n k c c' (start _) = omega arith
  Run-fetches n k c c' (decrypts _ _ d b t r) =
      omega (arith, Run-fetches n _ c d r, decrypt_ledger n b t d)
  Run-fetches n k c c' (completes j _ d m buffer r) =
      let (e, l) = complete_ledger n m buffer d in omega (arith, Run-fetches n j c d r, e, l)
  Run-fetches n k c c' (fails j _ d m message r) =
      let (e, l) = error_ledger n m message d in omega (arith, Run-fetches n j c d r, e, l)
