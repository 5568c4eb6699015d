-- ===== src/Sample/SessionTests.antt =====
-- The theorems on the life of a consumer, its retries and its decryptions at concrete inputs.
use nac_abe.Common.{
  text, ◌+◌, ◌≡◌, refl, [], ◌∷◌, arith, map, ◌<◌, ◌==◌, if◌then◌else◌, Bool-cases, inl, inr,
  beq_refl, ℕ,
}
use nac_abe.Common.Map.{find, put}
use nac_abe.Common.Result.{ok}
use nac_abe.Ndn.{name_eq}
use nac_abe.Packets.{Interest, interest}
use nac_abe.Algo.Keys.{no_key}
use nac_abe.Algo.Content.{make_data_content}
use nac_abe.Algo.Decrypt.{fresh_support}
use nac_abe.Algo.Transparent.{decrypt_all, decrypt_once, decrypt_all_transparent}
use nac_abe.TrustConfig.{empty_trust, add_or_update_certificate}
use nac_abe.ParamFetcher.{ParamFetcher, new_param_fetcher, fetch_public_params}
use nac_abe.Consumer.State.{Consumer}
use nac_abe.Consumer.Fetch.{
  decrypt_content, on_ck_error, read_content, seek_key, normalize_ck_key, broadcast,
}
use nac_abe.Consumer.Consume.{
  new_consumer, consume_block, consume_interest, consume_name, ready_for_decryption, on_data_error,
}
use nac_abe.Consumer.Ledger.{fetches, flying}
use nac_abe.Consumer.Session.Census.{times, count, answers, queued}
use nac_abe.Consumer.Session.Steps.{
  Session, Reach, here, next, equips, at_hand, consumes, data_lost, key_lost,
}
use nac_abe.Consumer.Session.Settling.{opened, Reach-balance, Reach-answered}
use nac_abe.Consumer.Session.Draining.{Reach-settles}
use nac_abe.Sample.Codec.{frames, frame, body, unframes}
use nac_abe.Sample.Names.{NameParts, toy_ndn}
use nac_abe.Sample.Certificates.{named, toy_security}
use nac_abe.Sample.Abe.{toy_abe}
use nac_abe.Sample.AlgoTests.{params, prv, object}
use nac_abe.Sample.ConsumerTests.{idle, key_name, block}

decrypt_all_transparent_example :
    decrypt_all (text "CP-ABE") params prv (object ∷ object ∷ []) fresh_support
    ≡ map (decrypt_once (text "CP-ABE") params prv) (object ∷ object ∷ [])
unfolding find
decrypt_all_transparent_example =
    decrypt_all_transparent (text "CP-ABE") params prv (object ∷ object ∷ []) fresh_support
      (λ sealed key e. cc)

abbrev asking : ParamFetcher
unfolding new_param_fetcher fetch_public_params
asking = (fetch_public_params (new_param_fetcher ((8, text "aa") ∷ []) (interest []))).1

-- a consumer that has just been made
abbrev newborn : Consumer
newborn = record idle {
  m_trust_config = add_or_update_certificate (named (text "aa")) empty_trust;
  m_key_cache = no_key;
  m_default_timeout = 200;
  m_param_fetcher = asking;
}

abbrev first_interest : Interest
first_interest = interest ((8, text "aa") ∷ (8, text "PUBPARAMS") ∷ [])

made :
    new_consumer fresh_support (named (text "consumer")) (named (text "aa")) (interest [])
    ≡ ok (newborn, first_interest)
unfolding new_consumer asking new_param_fetcher fetch_public_params
made = refl

-- It is given its key and the parameters, asks for the content of a block, whose content key is
-- lost, and for data that is lost too.
abbrev equipped : Consumer
equipped = record newborn { m_key_cache = prv; m_param_fetcher = idle.m_param_fetcher }

abbrev seeking : Consumer
seeking = (consume_block block 1 equipped).1

abbrev refused_key : Consumer
refused_key = (on_ck_error key_name (text "timeout") seeking).1

abbrev downloading : Consumer
downloading = (consume_name ((8, text "p") ∷ []) 2 refused_key).1

abbrev session : Session
session = record {
  consumer = downloading;
  asked = 2 ∷ 1 ∷ [];
  downloads = 2 ∷ [];
  ended = key_name ∷ [];
}

abbrev last_session : Session
last_session = record {
  consumer = (on_data_error (text "nack") 2 downloading).1;
  asked = 2 ∷ 1 ∷ [];
  downloads = [];
  ended = key_name ∷ [];
}

lived : Reach (opened newborn) session
unfolding consume_block consume_name on_ck_error fetches count frames frame body
    ready_for_decryption decrypt_content read_content unframes make_data_content seek_key find
    normalize_ck_key broadcast put
lived =
    next
      (next (next (next here (equips prv idle.m_param_fetcher)) (at_hand block 1 seeking refl))
        (key_lost key_name (text "timeout") (omega arith)))
      (consumes ((8, text "p") ∷ []) 2 refl)

died : Reach (opened newborn) last_session
died = next lived (data_lost (text "nack") 2 [] [] refl)

Reach-balance_example :
    (times 1 session.asked
      ≡ answers 1 session.consumer.events
        + queued 1 session.consumer.m_pending_callbacks
        + times 1 session.downloads)
    × (fetches key_name session.consumer.events
        ≡ count key_name session.ended + flying key_name session.consumer)
Reach-balance_example =
    Reach-balance fresh_support (named (text "consumer")) (named (text "aa")) (interest []) newborn
      first_interest session 1 key_name made lived

Reach-settles_example :
    (s' : Session) × Reach session s'
    × (s'.asked ≡ session.asked)
    × (s'.downloads ≡ [])
    × (s'.consumer.m_pending_callbacks ≡ [])
    × ((t : ℕ) → answers t s'.consumer.events ≡ times t session.asked)
Reach-settles_example =
    Reach-settles fresh_support (named (text "consumer")) (named (text "aa")) (interest []) newborn
      first_interest session made lived

one_each : (m n : NameParts) → ¬ ((if n == m then 1 else 0) + 0 < (if m == n then 1 else 0) + 0)
one_each m n h = elim (Bool-cases (m == n)) [
  | inl e ↦ absurd (ground (arith, beq_refl m, (name_eq.beq_iff m n).0 e))
  | inr e ↦ absurd (ground arith)
]

Reach-answered_example :
    (last_session.consumer.m_pending_callbacks ≡ [])
    × ((t : ℕ) → answers t last_session.consumer.events ≡ times t last_session.asked)
unfolding fetches count consume_name consume_block on_ck_error on_data_error frames frame body
    ready_for_decryption decrypt_content read_content unframes make_data_content seek_key find
    normalize_ck_key broadcast put consume_interest
Reach-answered_example =
    Reach-answered fresh_support (named (text "consumer")) (named (text "aa")) (interest []) newborn
      first_interest last_session made died refl (λ n. one_each key_name n)
