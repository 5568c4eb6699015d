-- ===== src/ParamFetcher.antt =====
-- param-fetcher: the public parameters of an attribute authority, fetched with retries.
pub mod Laws
use nac_abe.Common.{
  ℕ, ◌+◌, Bytes, text, Bool, true, false, ◌||◌, not, ◌++◌, Option, none, some, List, [], ◌∷◌, leb,
  if◌then◌else◌, bytes_beq,
}
use nac_abe.Common.Result.{Result, ok, err, Exception, runtime_error, undefined, or_throw}
use nac_abe.Common.Exec.{Exec, pure, modify, throw, lift, ◌>>=◌, ◌>>◌}
use nac_abe.Constants.{public_params, abe_type_cp_abe, abe_type_kp_abe}
use nac_abe.Ndn.{Ndn}
use nac_abe.Packets.{Interest, Data, interest}
use nac_abe.Security.{Validation, valid, invalid}
use nac_abe.Algo.Keys.{PublicParams, no_params, params_from_buffer}

abbrev pub max_retries : ℕ
max_retries = 10

abbrev pub is_supported : Bytes → Bool
is_supported t = bytes_beq t abe_type_cp_abe || bytes_beq t abe_type_kp_abe

abbrev pub too_many_attempts : Exception
too_many_attempts =
    runtime_error (text "Failed to fetch public parameters after multiple attempts.")

abbrev pub unsupported_type : Exception
unsupported_type = runtime_error (text "Fetched public parameters with unsupported ABE type")

abbrev pub check_supported : Bytes → Result (Unit {0})
check_supported t = if is_supported t then ok tt else err unsupported_type

module _ ⦃ndn : Ndn⦄ where
  open ndn use {Name, append, generic, at, size, read_component}

  pub record ParamFetcher : Type 0 where
    pub m_attr_authority_prefix : Name
    pub m_retry_count : ℕ
    pub m_abe_type : Bytes
    pub m_pub_params_cache : PublicParams
    pub m_interest_template : Interest

  unfoldable pub default_interest_template : Name → Interest
  default_interest_template empty_name = record (interest empty_name) {
    must_be_fresh = true;
    can_be_prefix = true;
  }

  unfoldable pub new_param_fetcher : Name → Interest → ParamFetcher
  new_param_fetcher prefix template = record {
    m_attr_authority_prefix = prefix;
    m_retry_count = 0;
    m_abe_type = [];
    m_pub_params_cache = no_params;
    m_interest_template = template;
  }

  -- Returns the Interest that is expressed.
  unfoldable pub fetch_public_params : Exec ParamFetcher Interest
  fetch_public_params f =
      if leb max_retries f.m_retry_count
      then throw too_many_attempts f
      else pure
          (record f.m_interest_template {
            name = append f.m_attr_authority_prefix (generic public_params);
          })
          (record f { m_retry_count = f.m_retry_count + 1 })

  -- The type is stored before it is tested.
  unfoldable pub on_attribute_pub_params : Data → Validation → Exec ParamFetcher (Unit {0})
  on_attribute_pub_params d (invalid info) f =
      throw (runtime_error (text "Fetched public parameters cannot be authenticated: " ++ info)) f
  on_attribute_pub_params d valid f =
      (do
        component ← lift (or_throw undefined (at d.name (size f.m_attr_authority_prefix + 1)))
        modify (λ t. record t { m_abe_type = read_component component })
        lift (check_supported (read_component component))
        params ← lift (params_from_buffer d.content)
        modify (λ t. record t { m_pub_params_cache = params }))
        f

  -- What comes back for the Interest.
  pub data Answer : Type 0 where
    data_answer : Data → Validation → Answer
    nack_answer timeout_answer : Answer

  -- The three callbacks. `some` is the Interest of a retry.
  unfoldable pub on_answer : Answer → Exec ParamFetcher (Option Interest)
  unfolding fetch_public_params on_attribute_pub_params
  on_answer (data_answer d v) = do
    modify (λ f. record f { m_retry_count = 0 })
    on_attribute_pub_params d v
    pure none
  on_answer nack_answer = do i ← fetch_public_params; pure (some i)
  on_answer timeout_answer = do i ← fetch_public_params; pure (some i)
