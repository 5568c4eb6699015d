-- ===== src/Producer/Command/Owner.antt =====
-- data-owner.cpp and producer.cpp: a data owner's command at the producer.
use mathlib.Core.List.{reverse, reverse_aux, append_assoc, append-nil}
use nac_abe.Common.{
  ◌||◌, ◌+◌, ◌<◌, Bytes, text, ◌≡◌, ◌≢◌, refl, sym, ap, ◌∙◌, Bool, true, false, Option, none, some,
  List, [], ◌∷◌, ◌++◌, map, concat_map, arith, bytes_beq,
}
use nac_abe.Common.Result.{Result, ok}
use nac_abe.Constants.{set_policy, abe_type_cp_abe, abe_type_kp_abe, tlv_attribute}
use nac_abe.Ndn.{Ndn}
use nac_abe.Ndn.Positions.{at_behind}
use nac_abe.Packets.{Interest, Data, interest}
use nac_abe.Security.{Security, Validation, valid, invalid}
use nac_abe.TrustConfig.{find_certificate_from_local}
use nac_abe.Producer.Policies.{add_new_policy, add_new_attributes, find_matched_policy}
use nac_abe.Producer.Policies.Longest.{NoneLonger}
use nac_abe.Producer.Policies.Adding.{IsDistinct, find_matched_policy-add_new_policy}
use nac_abe.Producer.State.{Producer}
use nac_abe.Producer.Command.{reply, generate_reply, on_policy_interest}
use nac_abe.DataOwner.{
  DataOwner, command_interest, command_policy, command_attributes, prepend_attribute,
  prepend_attributes, data_reply, success, failure, on_reply,
}

module _ ⦃ndn : Ndn⦄ ⦃sec : Security⦄ where
  open ndn use {
    Name, Component, components, append, generic, wire_encode, at, size, is_prefix_of, value,
  }

  abbrev unsigned : Name → Name → Bytes → Interest
  unsigned prefix data_prefix policy =
      record (interest (
        append (append (append prefix (generic set_policy)) (generic (wire_encode data_prefix)))
          (generic policy))) { must_be_fresh = true; lifetime = some 1000 }

  verified :
      (o : DataOwner) (prefix data_prefix : Name) (policy : Bytes)
      → sec.verify_signature (command_interest o prefix data_prefix policy) o.m_cert ≡ true
  unfolding command_interest
  verified o prefix data_prefix policy =
      sec.verify_signature-sign_interest o.m_cert (unsigned prefix data_prefix policy)

  command_components :
      (o : DataOwner) (prefix data_prefix : Name) (policy : Bytes)
      → (digest : Component) × (components (command_interest o prefix data_prefix policy).name
          ≡ components prefix
            ++ generic set_policy
              ∷ generic (wire_encode data_prefix)
              ∷ generic policy
              ∷ digest
              ∷ [])
  unfolding command_interest
  command_components o prefix data_prefix policy =
      let (digest, e) =
        sec.components-sign_interest o.m_cert (unsigned prefix data_prefix policy) in
      (digest, e ∙ simp (ndn.components-append, append_assoc))

  -- What the producer reads of a command.
  read_command :
      (o : DataOwner) (p : Producer) (data_prefix : Name) (policy : Bytes)
      → (at
            (command_interest o (sec.identity p.m_cert) data_prefix policy).name
            (size (sec.identity p.m_cert) + 1)
          ≡ some (generic (wire_encode data_prefix)))
        × (at
              (command_interest o (sec.identity p.m_cert) data_prefix policy).name
              (size (sec.identity p.m_cert) + 2)
            ≡ some (generic policy))
  read_command o p data_prefix policy =
      let (digest, e) = command_components o (sec.identity p.m_cert) data_prefix policy in
      (at_behind _ (sec.identity p.m_cert) _ 1 e, at_behind _ (sec.identity p.m_cert) _ 2 e)

  -- The command of the owner whose certificate the producer trusts is answered as `generate_reply`
  -- says.
  trusted :
      (o : DataOwner) (p : Producer) (data_prefix : Name) (policy : Bytes) (validation : Validation)
      (d : Data) (q : Producer)
      → find_certificate_from_local p.m_data_owner_key_name p.m_trust_config ≡ some o.m_cert
      → generate_reply data_prefix (command_interest o (sec.identity p.m_cert) data_prefix policy) p
        ≡ (ok d, q)
      → on_policy_interest
          (command_interest o (sec.identity p.m_cert) data_prefix policy)
          validation
          p
        ≡ (ok (some d), q)
  unfolding on_policy_interest
  trusted o p data_prefix policy validation d q h g = ground (
    arith,
    read_command o p data_prefix policy,
    ndn.name_from_value-generic data_prefix,
    verified o (sec.identity p.m_cert) data_prefix policy,
  )

  -- A data owner's command for a CP-ABE producer that trusts its certificate: the policy is set for
  -- the data prefix, nothing else of the producer changes, and the reply makes the owner's success
  -- callback run.
  pub command_policy_sets :
      (o : DataOwner) (p : Producer) (data_prefix : Name) (policy : Bytes) (validation : Validation)
      → find_certificate_from_local p.m_data_owner_key_name p.m_trust_config ≡ some o.m_cert
      → p.m_param_fetcher.m_abe_type ≡ abe_type_cp_abe
      → (d : Data) × (on_policy_interest
            (command_policy o (sec.identity p.m_cert) data_prefix policy)
            validation
            p
          ≡ (ok (some d), record p { m_policies = add_new_policy data_prefix policy p.m_policies }))
        × (on_reply (data_reply true d) ≡ some (success d))
  unfolding command_policy on_reply
  command_policy_sets o p data_prefix policy validation h e = (
    reply (command_interest o (sec.identity p.m_cert) data_prefix policy) true p,
    trusted o p data_prefix policy validation _ _ h (
        unfold generate_reply in
        rw (e, (read_command o p data_prefix policy).1)
          (ground (arith, ndn.read_component-generic policy))),
    refl,
  )

  -- After a data owner's command that a CP-ABE producer trusts, the policy is that of every name
  -- under the data prefix for which the producer had no longer prefix, if the data prefix is not
  -- empty and the table had one entry for each prefix.
  pub command_policy_governs :
      (o : DataOwner) (p q : Producer) (data_prefix n : Name) (policy : Bytes)
      (validation : Validation) (d : Option Data)
      → find_certificate_from_local p.m_data_owner_key_name p.m_trust_config ≡ some o.m_cert
      → p.m_param_fetcher.m_abe_type ≡ abe_type_cp_abe
      → IsDistinct p.m_policies
      → is_prefix_of data_prefix n ≡ true
      → 0 < size data_prefix
      → NoneLonger n (size data_prefix) p.m_policies
      → on_policy_interest
          (command_policy o (sec.identity p.m_cert) data_prefix policy)
          validation
          p
        ≡ (ok d, q)
      → find_matched_policy n q.m_policies ≡ policy
  command_policy_governs o p q data_prefix n policy validation d h e distinct i l longest run =
      let (_, e', _) = command_policy_sets o p data_prefix policy validation h e in
      ap (λ (r : Result (Option Data) × Producer). find_matched_policy n r.1.m_policies)
        (sym run ∙ e')
      ∙ find_matched_policy-add_new_policy data_prefix n policy p.m_policies distinct i l longest

  abbrev attribute_blocks : List Bytes → List ndn.Block
  attribute_blocks attributes = map (ndn.make_binary_block tlv_attribute) attributes

  -- The buffer that is filled from its end has the blocks in the order of the attributes.
  prepended :
      (attributes rest : List Bytes) (enc : Bytes)
      → prepend_attributes enc (reverse_aux attributes rest)
        ≡ prepend_attributes (concat_map ndn.wire (attribute_blocks attributes) ++ enc) rest
  prepended [] rest enc = refl
  prepended (a ∷ attributes) rest enc =
      prepended attributes (a ∷ rest) enc
      ∙ unfold prepend_attributes prepend_attribute in
        ap (λ b. prepend_attributes b rest)
          (sym (
            append_assoc (ndn.wire (ndn.make_binary_block tlv_attribute a))
              (concat_map ndn.wire (attribute_blocks attributes)) enc))

  buffer_lem :
      (attributes : List Bytes)
      → prepend_attributes [] (reverse attributes)
        ≡ concat_map ndn.wire (attribute_blocks attributes)
  unfolding prepend_attributes
  buffer_lem attributes =
      prepended attributes [] [] ∙ append-nil (concat_map ndn.wire (attribute_blocks attributes))

  values : (attributes : List Bytes) → map value (attribute_blocks attributes) ≡ attributes
  values [] = refl
  values (a ∷ rest) = rw (ndn.value-binary tlv_attribute a, values rest)

  -- A data owner's command for a KP-ABE producer that trusts its certificate: the attributes of the
  -- command, in their order, are set for the data prefix, nothing else of the producer changes, and
  -- the reply makes the owner's success callback run.
  pub command_attributes_sets :
      (o : DataOwner) (p : Producer) (data_prefix : Name) (attributes : List Bytes)
      (validation : Validation)
      → find_certificate_from_local p.m_data_owner_key_name p.m_trust_config ≡ some o.m_cert
      → p.m_param_fetcher.m_abe_type ≡ abe_type_kp_abe
      → (d : Data) × (on_policy_interest
            (command_attributes o (sec.identity p.m_cert) data_prefix attributes)
            validation
            p
          ≡ (
            ok (some d),
            record p { m_attributes = add_new_attributes data_prefix attributes p.m_attributes },
          ))
        × (on_reply (data_reply true d) ≡ some (success d))
  unfolding command_attributes on_reply
  command_attributes_sets o p data_prefix attributes validation h e = rw (buffer_lem attributes) (
      let policy : Bytes = concat_map ndn.wire (attribute_blocks attributes) in
      (
        reply (command_interest o (sec.identity p.m_cert) data_prefix policy) true p,
        trusted o p data_prefix policy validation _ _ h (
            unfold generate_reply in
            rw (
              e,
              (read_command o p data_prefix policy).1,
              ndn.component_elements-generic (attribute_blocks attributes),
              values attributes,
            )),
        refl,
      ))

  -- Who may set a policy: the data owner whose certificate the producer has, by its signature, and
  -- without one whom the validator lets pass.
  abbrev pub authentic : Interest → Validation → Producer → Bool
  authentic i validation p =
      elim (find_certificate_from_local p.m_data_owner_key_name p.m_trust_config) [
        | some owner ↦ sec.verify_signature i owner
        | none ↦ elim validation [ valid ↦ true | invalid info ↦ false ]
      ]

  -- A policy Interest, whatever its form, that is neither signed by the data owner whose certificate
  -- the producer has, nor let pass by the validator where it has none, changes nothing and has no
  -- reply.
  pub unauthentic_ignored :
      (i : Interest) (validation : Validation) (p : Producer)
      → authentic i validation p ≡ false
      → ((on_policy_interest i validation p).1 ≡ p)
        × ((d : Data) → (on_policy_interest i validation p).0 ≢ ok (some d))
  unfolding on_policy_interest
  unauthentic_ignored i validation p h = (ground arith, λ d e. ground arith)

  abbrev pub is_known : Bytes → Bool
  is_known t = bytes_beq t abe_type_cp_abe || bytes_beq t abe_type_kp_abe

  -- The command of a data owner whose certificate the producer trusts, before the producer knows its
  -- ABE type, sets nothing, and its reply makes the owner's error callback run.
  pub command_policy_unready :
      (o : DataOwner) (p : Producer) (data_prefix : Name) (policy : Bytes) (validation : Validation)
      → find_certificate_from_local p.m_data_owner_key_name p.m_trust_config ≡ some o.m_cert
      → is_known p.m_param_fetcher.m_abe_type ≡ false
      → (d : Data) × (on_policy_interest
            (command_policy o (sec.identity p.m_cert) data_prefix policy)
            validation
            p
          ≡ (ok (some d), p))
        × (on_reply (data_reply true d) ≡ some (failure (text "register failed")))
  unfolding command_policy on_reply
  command_policy_unready o p data_prefix policy validation h e = (
    reply (command_interest o (sec.identity p.m_cert) data_prefix policy) false p,
    trusted o p data_prefix policy validation _ _ h (unfold generate_reply in ground arith),
    refl,
  )
