-- ===== src/Consumer/Session/Steps.antt =====
-- consumer.cpp: a consumer between its users, who ask for data, and the network, where fetches end.
use nac_abe.Common.{ℕ, ◌+◌, ◌<◌, Bytes, ◌≡◌, true, false, List, ◌∷◌, ◌++◌, nat_eq}
use nac_abe.Common.Result.{ok}
use nac_abe.Ndn.{Ndn, name_eq}
use nac_abe.Security.{Security}
use nac_abe.OpenAbe.{OpenAbe}
use nac_abe.Algo.Keys.{PrivateKey}
use nac_abe.ParamFetcher.{ParamFetcher}
use nac_abe.Consumer.State.{Consumer}
use nac_abe.Consumer.Fetch.{on_ck_complete, on_ck_error}
use nac_abe.Consumer.Consume.{
  ready_for_decryption, consume_name, consume_block, on_data_complete, on_data_error,
}
use nac_abe.Consumer.Ledger.{IsPaired, fetches, flying}
use nac_abe.Consumer.Session.Census.{count, times, queued, IsDistinct, answers}

module _ ⦃ndn : Ndn⦄ ⦃sec : Security⦄ ⦃abe : OpenAbe⦄ where
  open ndn use {Name, Block}

  -- A consumer, the callbacks that it has been given, those of the data fetches under way, and the
  -- keys of the content key fetches that have ended.
  pub record Session : Type 0 where
    pub consumer : Consumer
    pub asked : List ℕ
    pub downloads : List ℕ
    pub ended : List Name

  -- More fetches of the key have been started than have ended.
  abbrev pub IsFetching : Name → Session → Type 0
  IsFetching n s = count n s.ended < fetches n s.consumer.events

  -- What happens to a consumer. Calls that throw are left out, and each fetch ends once.
  pub data Step (s : Session) : Session → Type 0 where
    refuses :
        (n : Name) (t : ℕ)
        → ready_for_decryption s.consumer ≡ false
        → Step s (record s { consumer = (consume_name n t s.consumer).1; asked = t ∷ s.asked })
    consumes :
        (n : Name) (t : ℕ)
        → ready_for_decryption s.consumer ≡ true
        → Step s (record s {
          consumer = (consume_name n t s.consumer).1;
          asked = t ∷ s.asked;
          downloads = t ∷ s.downloads;
        })
    at_hand :
        (b : Block) (t : ℕ) (c : Consumer)
        → consume_block b t s.consumer ≡ (ok tt, c)
        → Step s (record s { consumer = c; asked = t ∷ s.asked })
    data_arrives :
        (buffer : Bytes) (t : ℕ) (before after : List ℕ) (c : Consumer)
        → s.downloads ≡ before ++ t ∷ after
        → on_data_complete buffer t s.consumer ≡ (ok tt, c)
        → Step s (record s { consumer = c; downloads = before ++ after })
    data_lost :
        (message : Bytes) (t : ℕ) (before after : List ℕ)
        → s.downloads ≡ before ++ t ∷ after
        → Step s (record s {
          consumer = (on_data_error message t s.consumer).1;
          downloads = before ++ after;
        })
    key_arrives :
        (n : Name) (buffer : Bytes) (c : Consumer)
        → IsFetching n s
        → on_ck_complete n buffer s.consumer ≡ (ok tt, c)
        → Step s (record s { consumer = c; ended = n ∷ s.ended })
    key_lost :
        (n : Name) (message : Bytes)
        → IsFetching n s
        → Step s (record s { consumer = (on_ck_error n message s.consumer).1; ended = n ∷ s.ended })
    -- the decryption key and the public parameters, when they come
    equips :
        (prv : PrivateKey) (fetcher : ParamFetcher)
        → Step s (record s {
          consumer = record s.consumer { m_key_cache = prv; m_param_fetcher = fetcher };
        })

  pub data Reach (s : Session) : Session → Type 0 where
    here : Reach s s
    next : {u v : Session} → Reach s u → Step u v → Reach s v

  pub record IsAccounted (s : Session) : Type 0 where
    pub distinct : IsDistinct s.consumer.m_pending_callbacks
    pub paired : IsPaired s.consumer
    pub balance :
        (t : ℕ)
        → times t s.asked
          ≡ answers t s.consumer.events
            + queued t s.consumer.m_pending_callbacks
            + times t s.downloads
    pub fetched : (n : Name) → fetches n s.consumer.events ≡ count n s.ended + flying n s.consumer
