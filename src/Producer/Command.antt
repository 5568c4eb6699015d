-- ===== src/Producer/Command.antt =====
-- producer.cpp: the constructors, and `onPolicyInterest`, by which the data owner sets a policy.
pub mod Owner
use nac_abe.Common.{
  ℕ, ◌+◌, Bytes, text, Bool, true, false, Option, none, some, List, [], ◌∷◌, bytes_beq,
  if◌then◌else◌, map,
}
use nac_abe.Common.Result.{Result, ok, err, name_error, tlv_error, or_throw}
use nac_abe.Common.Exec.{Exec, pure, modify, throw, lift, ◌>>=◌, ◌>>◌}
use nac_abe.Constants.{abe_type_cp_abe, abe_type_kp_abe}
use nac_abe.Ndn.{Ndn}
use nac_abe.Packets.{Interest, Data}
use nac_abe.Security.{Security, Validation, valid, invalid}
use nac_abe.TrustConfig.{empty_trust, add_or_update_certificate, find_certificate_from_local}
use nac_abe.ParamFetcher.{new_param_fetcher, fetch_public_params}
use nac_abe.Producer.Policies.{add_new_policy, add_new_attributes}
use nac_abe.Producer.State.{Template, default_template, Producer}

module _ ⦃ndn : Ndn⦄ ⦃sec : Security⦄ where
  open ndn use {Name, at, size, read_component, name_from_value, component_elements, value}

  -- The first constructor, with the Interest for the public parameters that it sends. `empty_name`
  -- is `Name()`.
  unfoldable pub new_producer :
      Name → sec.Certificate → sec.Certificate → Interest → Result (Producer × Interest)
  unfolding add_or_update_certificate
  new_producer empty_name cert authority template =
      let (r, fetcher) =
        fetch_public_params (new_param_fetcher (sec.identity authority) template) in
      elim r [
        | err e ↦ err e
        | ok i ↦ ok (
          record {
            m_cert = cert;
            m_data_owner_key_name = empty_name;
            m_trust_config = add_or_update_certificate authority empty_trust;
            m_policies = [];
            m_attributes = [];
            m_param_fetcher = fetcher;
            reply_template = default_template;
          },
          i,
        )
      ]

  -- The second: policies are taken from a data owner.
  unfoldable pub new_owned_producer :
      Name
      → sec.Certificate
      → sec.Certificate
      → sec.Certificate
      → Interest
      → Result (Producer × Interest)
  unfolding add_or_update_certificate
  new_owned_producer empty_name cert authority owner template =
      elim (new_producer empty_name cert authority template) [
        | err e ↦ err e
        | ok (p, i) ↦ ok (
          record p {
            m_data_owner_key_name = sec.key_name owner;
            m_trust_config = add_or_update_certificate owner p.m_trust_config;
          },
          i,
        )
      ]

  -- `setPolicyReplyTemplate`
  unfoldable pub set_policy_reply_template : Template → Producer → Producer
  set_policy_reply_template template p = record p { reply_template = template }

  abbrev pub reply : Interest → Bool → Producer → Data
  reply i success p = record {
    name = i.name;
    content = if success then text "success" else text "failure";
    freshness = p.reply_template.freshness;
    content_type = p.reply_template.content_type;
  }

  -- The last component that the command gives, whose place depends on the producer's own name.
  abbrev pub argument : Interest → Producer → Result ndn.Component
  argument i p = or_throw name_error (at i.name (size (sec.identity p.m_cert) + 2))

  unfoldable pub generate_reply : Name → Interest → Exec Producer Data
  generate_reply data_prefix i p =
      if bytes_beq p.m_param_fetcher.m_abe_type abe_type_cp_abe
      then (do
        c ← lift (argument i p)
        modify (λ q. record q {
          m_policies = add_new_policy data_prefix (read_component c) q.m_policies;
        })
        pure (reply i true p))
          p
      else if bytes_beq p.m_param_fetcher.m_abe_type abe_type_kp_abe
      then (do
        c ← lift (argument i p)
        es ← lift (or_throw tlv_error (component_elements c))
        modify (λ q. record q {
          m_attributes = add_new_attributes data_prefix (map value es) q.m_attributes;
        })
        pure (reply i true p))
          p
      else pure (reply i false p) p

  -- Returns the reply that is put, if there is one. What the validator says is only asked for where
  -- the data owner's certificate is not at hand.
  unfoldable pub on_policy_interest : Interest → Validation → Exec Producer (Option Data)
  on_policy_interest i validation p =
      (do
        c ← lift (or_throw name_error (at i.name (size (sec.identity p.m_cert) + 1)))
        data_prefix ← lift (or_throw tlv_error (name_from_value c))
        elim (find_certificate_from_local p.m_data_owner_key_name p.m_trust_config) [
          | some owner ↦
              if sec.verify_signature i owner
              then (do d ← generate_reply data_prefix i; pure (some d))
              else pure none
          | none ↦ elim validation [
            | valid ↦ (do d ← generate_reply data_prefix i; pure (some d))
            | invalid info ↦ pure none
          ]
        ])
        p
