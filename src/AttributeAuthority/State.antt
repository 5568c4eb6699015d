-- ===== src/AttributeAuthority/State.antt =====
-- attribute-authority: the state, the constructors, the tokens, and the public parameters.
use nac_abe.Common.{ℕ, Bytes, text, ◌++◌, List, [], bytes_beq, if◌then◌else◌}
use nac_abe.Common.Map.{Map, find, insert}
use nac_abe.Common.Result.{Result, ok, err, runtime_error, out_of_range, or_throw, ◌>>=◌}
use nac_abe.Constants.{abe_type_cp_abe, abe_type_kp_abe}
use nac_abe.Ndn.{Ndn, name_eq}
use nac_abe.Packets.{Interest, Data}
use nac_abe.Security.{Security}
use nac_abe.OpenAbe.{OpenAbe}
use nac_abe.Algo.Keys.{PublicParams, MasterKey, PrivateKey, params_to_buffer}
use nac_abe.Algo.Support.{cp_init, kp_init, cp_prv_key_gen, kp_prv_key_gen}
use nac_abe.TrustConfig.{TrustConfig, empty_trust, add_or_update_certificate}
use nac_abe.NdnCrypto.{CryptoDraw}

-- What an answer draws: OpenABE's randomness, that of the encryption, and the time.
pub record IssueDraw : Type 0 where
  pub key_seed : ℕ
  pub crypto_draw : CryptoDraw
  pub time : ℕ

module _ ⦃ndn : Ndn⦄ ⦃sec : Security⦄ where
  open ndn use {Name, append, generic, version}

  -- The base class with the tokens of its two children: a decryptor has attributes under CP-ABE,
  -- and a policy under KP-ABE.
  pub record AttributeAuthority (Token : Type 0) : Type 0 where
    pub m_cert : sec.Certificate
    pub m_trust_config : TrustConfig
    pub m_max_segment_size : ℕ
    pub m_segment_map : Map Name (List Data)
    pub m_abe_type : Bytes
    pub m_pub_params : PublicParams
    pub m_master_key : MasterKey
    pub m_tokens : Map Name Token

  abbrev pub CpAttributeAuthority : Type 0
  CpAttributeAuthority = AttributeAuthority (List Bytes)

  abbrev pub KpAttributeAuthority : Type 0
  KpAttributeAuthority = AttributeAuthority Bytes

  -- `addNewPolicy`: a decryptor that has a token keeps it.
  unfoldable pub add_new_policy :
      {Token : Type 0} → Name → Token → AttributeAuthority Token → AttributeAuthority Token
  add_new_policy identity token a = record a { m_tokens = insert identity token a.m_tokens }

  unfoldable pub add_new_policy_for :
      {Token : Type 0}
      → sec.Certificate
      → Token
      → AttributeAuthority Token
      → AttributeAuthority Token
  unfolding add_new_policy
  add_new_policy_for c token a =
      add_new_policy (sec.identity c) token
        (record a { m_trust_config = add_or_update_certificate c a.m_trust_config })

  unfoldable pub on_public_params_request :
      {Token : Type 0} → AttributeAuthority Token → Interest → ℕ → Data
  on_public_params_request a i time = record {
    name = append (append i.name (generic a.m_abe_type)) (version time);
    content = params_to_buffer a.m_pub_params;
    freshness = 5000;
    content_type = 0;
  }

module _ ⦃ndn : Ndn⦄ ⦃sec : Security⦄ ⦃abe : OpenAbe⦄ where
  open ndn use {Name}

  -- The constructors of the base class, and those of its children.
  unfoldable pub new_authority :
      {Token : Type 0} → sec.Certificate → Bytes → ℕ → ℕ → Result (AttributeAuthority Token)
  new_authority cert abe_type max_segment_size r = do
    keys ←
        (if bytes_beq abe_type abe_type_cp_abe
          then cp_init r
          else if bytes_beq abe_type abe_type_kp_abe
          then kp_init r
          else err (runtime_error (text "Unsupported ABE type: " ++ abe_type)))
    ok (record {
      m_cert = cert;
      m_trust_config = empty_trust;
      m_max_segment_size = max_segment_size;
      m_segment_map = [];
      m_abe_type = abe_type;
      m_pub_params = keys.0;
      m_master_key = keys.1;
      m_tokens = [];
    })

  unfoldable pub new_cp_authority : sec.Certificate → ℕ → Result CpAttributeAuthority
  unfolding new_authority
  new_cp_authority cert r = new_authority cert abe_type_cp_abe 1500 r

  unfoldable pub new_kp_authority : sec.Certificate → ℕ → ℕ → Result KpAttributeAuthority
  unfolding new_authority
  new_kp_authority cert max_segment_size r = new_authority cert abe_type_kp_abe max_segment_size r

  -- `getPrivateKey`, which the children override
  abbrev pub GetPrivateKey : Type 0 → Type 0
  GetPrivateKey Token = AttributeAuthority Token → Name → ℕ → Result PrivateKey

  unfoldable pub cp_get_private_key : GetPrivateKey (List Bytes)
  cp_get_private_key a identity r = do
    attributes ← or_throw out_of_range (find identity a.m_tokens)
    cp_prv_key_gen a.m_pub_params a.m_master_key attributes r

  unfoldable pub kp_get_private_key : GetPrivateKey Bytes
  kp_get_private_key a identity r = do
    policy ← or_throw out_of_range (find identity a.m_tokens)
    kp_prv_key_gen a.m_pub_params a.m_master_key policy r
