-- ===== src/Consumer/Session/Census.antt =====
-- consumer.cpp: how often a pair of callbacks waits, and how often one of the two has been called.
use nac_abe.Common.{
  ℕ, ◌+◌, ◌≤◌, ◌≡◌, refl, ◌∙◌, inl, inr, none, some, List, [], ◌∷◌, ◌++◌, map, length, arith,
  Option, ◌==◌, Eq, if◌then◌else◌, nat_eq, Bytes,
}
use nac_abe.Common.Map.{Map, find, erase, put, find-erase}
use nac_abe.Ndn.{Ndn, name_eq}
use nac_abe.Security.{Security}
use nac_abe.OpenAbe.{OpenAbe}
use nac_abe.Consumer.State.{
  PendingTask, Event, on_success, on_error, fetch_data, fetch_ck, fetch_private_key,
}
use nac_abe.Consumer.Answers.{IsAnswer, AreAnswers}
use nac_abe.Consumer.Ledger.{fetches, fetches-append}
use nac_abe.Consumer.Runs.{refusal}

abbrev pub own : ℕ → ℕ → ℕ
own t u = if t == u then 1 else 0

-- How often something stands in a list.
unfoldable pub count {ℓ} : {A : Type ℓ} ⦃same : Eq A⦄ → A → List A → ℕ
count a [] = 0
count a (b ∷ bs) = (if a == b then 1 else 0) + count a bs

pub count_middle {ℓ} :
    {A : Type ℓ} ⦃same : Eq A⦄ (a b : A) (before after : List A)
    → count a (before ++ b ∷ after) ≡ (if a == b then 1 else 0) + count a (before ++ after)
unfolding count
count_middle a b [] after = refl
count_middle a b (x ∷ before) after = omega (arith, count_middle a b before after)

-- How often a pair of callbacks stands in a list.
abbrev pub times : ℕ → List ℕ → ℕ
times = count ⦃same = nat_eq⦄

-- How often a pair of callbacks waits in a queue.
unfoldable pub among : ℕ → List PendingTask → ℕ
among t [] = 0
among t (task ∷ rest) = own t task.callbacks + among t rest

pub among-append : (t : ℕ) (ts us : List PendingTask) → among t (ts ++ us) ≡ among t ts + among t us
unfolding among
among-append t [] us = omega arith
among-append t (task ∷ ts) us = omega (arith, among-append t ts us)

abbrev pub queue : Option (List PendingTask) → List PendingTask
queue none = []
queue (some ts) = ts

module _ {K : Type 0} ⦃same : Eq K⦄ where
  -- How often it waits in all the queues of a table.
  unfoldable pub queued : ℕ → Map K (List PendingTask) → ℕ
  queued t [] = 0
  queued t ((k, ts) ∷ m) = among t ts + queued t m

  -- No key has two entries.
  abbrev pub IsDistinct {ℓ} : {V : Type ℓ} → Map K V → Type ℓ
  IsDistinct [] = Unit
  IsDistinct ((k, v) ∷ m) = (find k m ≡ none) × IsDistinct m

  erase_absent {ℓ} : {V : Type ℓ} (k : K) (m : Map K V) → find k m ≡ none → erase k m ≡ m
  unfolding erase find
  erase_absent k [] h = refl
  erase_absent k ((j, v) ∷ m) h = ground (arith, erase_absent k m)

  pub erase-IsDistinct {ℓ} :
      {V : Type ℓ} (k : K) (m : Map K V) → IsDistinct m → IsDistinct (erase k m)
  unfolding erase
  erase-IsDistinct k [] h = tt
  erase-IsDistinct k ((j, v) ∷ m) (h, d) = ground (arith, find-erase k j m, erase-IsDistinct k m d)

  pub put-IsDistinct {ℓ} :
      {V : Type ℓ} (k : K) (v : V) (m : Map K V) → IsDistinct m → IsDistinct (put k v m)
  unfolding put
  put-IsDistinct k v m d =
      (ground (arith, find-erase k k m, same.beq_iff k k), erase-IsDistinct k m d)

  pub queued-erase :
      (t : ℕ) (k : K) (m : Map K (List PendingTask))
      → IsDistinct m
      → queued t (erase k m) + among t (queue (find k m)) ≡ queued t m
  unfolding queued erase find among
  queued-erase t k [] d = refl
  queued-erase t k ((j, ts) ∷ m) (h, d) =
      ground (arith, queued-erase t k m d, erase_absent j m h, same.beq_iff j k)

  pub queued-put :
      (t : ℕ) (k : K) (ts : List PendingTask) (m : Map K (List PendingTask))
      → IsDistinct m
      → queued t (put k ts m) + among t (queue (find k m)) ≡ queued t m + among t ts
  unfolding put queued
  queued-put t k ts m d = omega (arith, queued-erase t k m d)

  -- Erasing leaves fewer entries.
  pub length-erase {ℓ} : {V : Type ℓ} (k : K) (m : Map K V) → length (erase k m) ≤ length m
  unfolding erase
  length-erase k [] = omega arith
  length-erase k ((j, v) ∷ m) = ground (arith, length-erase k m)

module _ ⦃ndn : Ndn⦄ ⦃sec : Security⦄ ⦃abe : OpenAbe⦄ where
  open ndn use {Name}

  -- How often one of the two callbacks has been called.
  unfoldable pub answers : ℕ → List Event → ℕ
  answers t [] = 0
  answers t (on_success u m ∷ rest) = own t u + answers t rest
  answers t (on_error u m ∷ rest) = own t u + answers t rest
  answers t (_ ∷ rest) = answers t rest

  pub answers-append : (t : ℕ) (a b : List Event) → answers t (a ++ b) ≡ answers t a + answers t b
  unfolding answers
  answers-append t [] b = omega arith
  answers-append t (on_success u m ∷ rest) b = omega (arith, answers-append t rest b)
  answers-append t (on_error u m ∷ rest) b = omega (arith, answers-append t rest b)
  answers-append t (fetch_ck i ∷ rest) b = answers-append t rest b
  answers-append t (fetch_data i ∷ rest) b = answers-append t rest b
  answers-append t (fetch_private_key i ∷ rest) b = answers-append t rest b

  pub answers-IsAnswer : (t u : ℕ) (e : Event) → IsAnswer u e → (answers t (e ∷ []) ≡ own t u)
  unfolding answers
  answers-IsAnswer t u e (inl (m, q)) = rw q (omega arith)
  answers-IsAnswer t u e (inr (m, q)) = rw q (omega arith)

  fetches-IsAnswer : (n : Name) (u : ℕ) (e : Event) → IsAnswer u e → fetches n (e ∷ []) ≡ 0
  unfolding fetches
  fetches-IsAnswer n u e (inl (m, q)) = rw q
  fetches-IsAnswer n u e (inr (m, q)) = rw q

  pub answers-AreAnswers :
      (t : ℕ) (ts : List PendingTask) (es : List Event)
      → AreAnswers ts es
      → answers t es ≡ among t ts
  unfolding among
  answers-AreAnswers t [] [] h = unfold answers in refl
  answers-AreAnswers t [] (e ∷ es) h = elim h [ ]
  answers-AreAnswers t (task ∷ ts) [] h = elim h [ ]
  answers-AreAnswers t (task ∷ ts) (e ∷ es) (h, hs) =
      answers-append t (e ∷ []) es
      ∙ omega (arith, answers-IsAnswer t task.callbacks e h, answers-AreAnswers t ts es hs)

  pub fetches-AreAnswers :
      (n : Name) (ts : List PendingTask) (es : List Event) → AreAnswers ts es → fetches n es ≡ 0
  fetches-AreAnswers n [] [] h = unfold fetches in refl
  fetches-AreAnswers n [] (e ∷ es) h = elim h [ ]
  fetches-AreAnswers n (task ∷ ts) [] h = elim h [ ]
  fetches-AreAnswers n (task ∷ ts) (e ∷ es) (h, hs) =
      fetches-append n (e ∷ []) es
      ∙ omega (arith, fetches-IsAnswer n task.callbacks e h, fetches-AreAnswers n ts es hs)

  pub refusals-AreAnswers :
      (message : Bytes) (ts : List PendingTask) → AreAnswers ts (map (refusal message) ts)
  refusals-AreAnswers message [] = tt
  refusals-AreAnswers message (task ∷ ts) = (inr (message, refl), refusals-AreAnswers message ts)
