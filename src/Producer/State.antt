-- ===== src/Producer/State.antt =====
-- producer.hpp: the state of a producer, and what its calls are given besides.
use nac_abe.Common.{ℕ}
use nac_abe.Ndn.{Ndn}
use nac_abe.Security.{Security}
use nac_abe.TrustConfig.{TrustConfig}
use nac_abe.ParamFetcher.{ParamFetcher}
use nac_abe.Producer.Policies.{PolicyTable, AttributeTable}

-- What a call draws: OpenABE's randomness, and the 32-bit word of `generateSecureWord32`.
pub record Draw : Type 0 where
  pub key_seed : ℕ
  pub seal_seed : ℕ
  pub sym_seed : ℕ
  pub word : ℕ

-- What `produce` reads of a template: the freshness period in milliseconds and the content type.
pub record Template : Type 0 where
  pub freshness : ℕ
  pub content_type : ℕ

-- `getDefaultCkTemplate()`, `getDefaultEncryptedDataTemplate()`; 0 is the content type Blob.
abbrev pub default_template : Template
default_template = record { freshness = 5000; content_type = 0 }

module _ ⦃ndn : Ndn⦄ ⦃sec : Security⦄ where
  open ndn use {Name}

  pub record Producer : Type 0 where
    pub m_cert : sec.Certificate
    pub m_data_owner_key_name : Name
    pub m_trust_config : TrustConfig
    pub m_policies : PolicyTable
    pub m_attributes : AttributeTable
    pub m_param_fetcher : ParamFetcher
    pub reply_template : Template
