-- ===== src/Consumer/State.antt =====
-- consumer.hpp: the state of a consumer, and what it does to the outside.
use nac_abe.Common.{ℕ, Bytes, List, [], ◌∷◌, ◌++◌}
use nac_abe.Common.Map.{Map}
use nac_abe.Common.Exec.{Exec, modify}
use nac_abe.Ndn.{Ndn}
use nac_abe.Packets.{Interest}
use nac_abe.Security.{Security}
use nac_abe.Algo.Keys.{PrivateKey}
use nac_abe.Algo.Content.{CipherText}
use nac_abe.Algo.Decrypt.{AbeSupport}
use nac_abe.TrustConfig.{TrustConfig}
use nac_abe.ParamFetcher.{ParamFetcher}

-- A pair of callbacks is a number, and a call of one is an event.
pub record PendingTask : Type 0 where
  pub cipher : CipherText
  pub callbacks : ℕ

module _ ⦃ndn : Ndn⦄ where
  open ndn use {Name}

  pub data Event : Type 0 where
    on_success : ℕ → Bytes → Event
    on_error : ℕ → Bytes → Event
    -- `SegmentFetcher::start` for data, for a content key, and for the private key
    fetch_data : Interest → Event
    fetch_ck : Interest → Event
    fetch_private_key : Interest → Event

module _ ⦃ndn : Ndn⦄ ⦃sec : Security⦄ where
  open ndn use {Name}

  -- A set is a map to `Unit`. The singleton `ABESupport` and the events so far stand beside the
  -- members.
  pub record Consumer : Type 0 where
    pub m_cert : sec.Certificate
    pub m_attr_authority_prefix : Name
    pub m_trust_config : TrustConfig
    pub m_key_cache : PrivateKey
    pub m_ck_interests_sent : Map Name (Unit {0})
    pub m_pending_callbacks : Map Name (List PendingTask)
    pub m_ck_enc_aes_cache : Map Name Bytes
    pub m_max_retries : ℕ
    pub m_default_timeout : ℕ
    pub m_param_fetcher : ParamFetcher
    pub abe_support : AbeSupport
    pub events : List Event

  abbrev pub emit : Event → Exec Consumer (Unit {0})
  emit e = modify (λ c. record c { events = c.events ++ e ∷ [] })
