-- ===== src/Consumer/Session/Draining.antt =====
-- consumer.cpp: a way from every session to one in which everybody has been answered.
use nac_abe.Common.{ℕ, zero, suc, ◌≤◌, ◌≡◌, refl, ap, ◌∙◌, List, [], ◌∷◌, length, arith}
use nac_abe.Common.Map.{Map, erase}
use nac_abe.Common.Result.{ok}
use nac_abe.Ndn.{Ndn, name_eq}
use nac_abe.Packets.{Interest}
use nac_abe.Security.{Security}
use nac_abe.OpenAbe.{OpenAbe}
use nac_abe.Algo.Decrypt.{AbeSupport}
use nac_abe.Consumer.State.{PendingTask, Consumer}
use nac_abe.Consumer.Consume.{new_consumer, on_data_error}
use nac_abe.Consumer.Fetch.{on_ck_error}
use nac_abe.Consumer.Session.Census.{times, answers, length-erase}
use nac_abe.Consumer.Session.Ends.{on_ck_error-Ended}
use nac_abe.Consumer.Session.Accounts.{Step-IsAccounted}
use nac_abe.Consumer.Session.Steps.{
  Session, Step, data_lost, key_lost, Reach, here, next, IsAccounted,
}
use nac_abe.Consumer.Session.Settling.{
  opened, Reach-IsAccounted, new_consumer-IsBlank, opened-IsAccounted, first-IsFetching,
  answered_by,
}

module _ ⦃ndn : Ndn⦄ ⦃sec : Security⦄ ⦃abe : OpenAbe⦄ where
  open ndn use {Name}

  -- A session in which what was reached goes on.
  record Drained (s u : Session) : Type 0 where
    later : Session
    reached : Reach s later
    accounted : IsAccounted later
    same_asked : later.asked ≡ u.asked
    no_downloads : later.downloads ≡ []

  drain_downloads :
      (ds : List ℕ) (s u : Session) → Reach s u → IsAccounted u → u.downloads ≡ ds → Drained s u
  drain_downloads [] s u r a e = record {
    later = u;
    reached = r;
    accounted = a;
    same_asked = refl;
    no_downloads = e;
  }
  drain_downloads (t ∷ ds) s u r a e =
      let u' : Session = record u {
        consumer = (on_data_error [] t u.consumer).1;
        downloads = ds;
      } in
      let st : Step u u' = data_lost [] t [] ds e in
      let d = drain_downloads ds s u' (next r st) (Step-IsAccounted u u' a st) refl in
      record {
        later = d.later;
        reached = d.reached;
        accounted = d.accounted;
        same_asked = d.same_asked;
        no_downloads = d.no_downloads;
      }

  erased :
      (n : Name) (ts : List PendingTask) (rest : Map Name (List PendingTask))
      → length (erase n ((n, ts) ∷ rest)) ≤ length rest
  unfolding erase
  erased n ts rest = ground (arith, length-erase n rest, ndn.name_beq_iff n n)

  record IsSettled (s u : Session) : Type 0 where
    end : Session
    reached_end : Reach s end
    accounted_end : IsAccounted end
    asked_end : end.asked ≡ u.asked
    quiet : end.downloads ≡ []
    nobody : end.consumer.m_pending_callbacks ≡ []

  drain_keys :
      (k : ℕ) (m : Map Name (List PendingTask)) (s u : Session)
      → length m ≤ k
      → Reach s u
      → IsAccounted u
      → u.downloads ≡ []
      → u.consumer.m_pending_callbacks ≡ m
      → IsSettled s u
  drain_keys k [] s u l r a q e = record {
    end = u;
    reached_end = r;
    accounted_end = a;
    asked_end = refl;
    quiet = q;
    nobody = e;
  }
  drain_keys zero ((n, ts) ∷ rest) s u l r a q e = absurd (omega arith)
  drain_keys (suc k) ((n, ts) ∷ rest) s u l r a q e =
      let u' : Session = record u {
        consumer = (on_ck_error n [] u.consumer).1;
        ended = n ∷ u.ended;
      } in
      let st : Step u u' = key_lost n [] (first-IsFetching u n ts rest a e) in
      let shorter : length (erase n u.consumer.m_pending_callbacks) ≤ k =
        rw e (omega (arith, erased n ts rest)) in
      let d =
        drain_keys k (erase n u.consumer.m_pending_callbacks) s u' shorter (next r st)
          (Step-IsAccounted u u' a st) q (on_ck_error-Ended n [] u.consumer).pending in
      record {
        end = d.end;
        reached_end = d.reached_end;
        accounted_end = d.accounted_end;
        asked_end = d.asked_end;
        quiet = d.quiet;
        nobody = d.nobody;
      }

  -- From every session that a new consumer reaches without a throw, a further one is reached, without
  -- another request, in which no download is under way, nobody waits for a content key, and one of
  -- every pair of callbacks has been called as often as the pair was given to `consume`: no state is
  -- a dead end for those who wait.
  pub Reach-settles :
      (support : AbeSupport) (cert authority : sec.Certificate) (template : Interest) (c : Consumer)
      (i : Interest) (s : Session)
      → new_consumer support cert authority template ≡ ok (c, i)
      → Reach (opened c) s
      → (s' : Session) × Reach s s'
        × (s'.asked ≡ s.asked)
        × (s'.downloads ≡ [])
        × (s'.consumer.m_pending_callbacks ≡ [])
        × ((t : ℕ) → answers t s'.consumer.events ≡ times t s.asked)
  Reach-settles support cert authority template c i s h r =
      let a =
        Reach-IsAccounted (opened c) s
          (opened-IsAccounted c (new_consumer-IsBlank support cert authority template c i h)) r in
      let d = drain_downloads s.downloads s s here a refl in
      let z =
        drain_keys (length d.later.consumer.m_pending_callbacks) _ s d.later (omega arith) d.reached
          d.accounted d.no_downloads refl in
      (
        z.end,
        z.reached_end,
        z.asked_end ∙ d.same_asked,
        z.quiet,
        z.nobody,
        λ t.
            answered_by z.end z.accounted_end z.quiet z.nobody t
            ∙ ap (times t) (z.asked_end ∙ d.same_asked),
      )
