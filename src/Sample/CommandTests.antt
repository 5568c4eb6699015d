-- ===== src/Sample/CommandTests.antt =====
-- The theorems on a data owner's commands at concrete inputs.
use nac_abe.Common.{text, ◌≡◌, ◌≢◌, refl, [], ◌∷◌, Option, some, arith, true}
use nac_abe.Common.Result.{ok}
use nac_abe.Common.Map.{find}
use nac_abe.Packets.{Interest, Data}
use nac_abe.Security.{valid}
use nac_abe.TrustConfig.{find_certificate_from_local}
use nac_abe.DataOwner.{
  DataOwner, command_policy, command_attributes, command_interest, data_reply, success, on_reply,
}
use nac_abe.Producer.Policies.{add_new_policy, add_new_attributes, find_matched_policy}
use nac_abe.Producer.State.{Producer}
use nac_abe.Producer.Command.{on_policy_interest, generate_reply, reply}
use nac_abe.Producer.Command.Owner.{
  command_policy_sets, command_policy_governs, command_attributes_sets, unauthentic_ignored,
}
use nac_abe.Sample.Codec.{frames, frame, body, unframes, read}
use nac_abe.Sample.Names.{NameParts, toy_ndn}
use nac_abe.Sample.Certificates.{named, toy_security}
use nac_abe.Sample.ProducerTests.{cp_producer, kp_producer, kitchen, lamp, policies}

abbrev owner : DataOwner
owner = record { m_cert = named (text "owner") }

-- the producers, with the owner's certificate on file
abbrev owned : Producer → Producer
owned p = record p {
  m_data_owner_key_name = toy_security.key_name owner.m_cert;
  m_trust_config = record {
    m_known_keys = (toy_security.key_name owner.m_cert, owner.m_cert) ∷ [];
  };
}

abbrev of_producer : NameParts
of_producer = (8, text "producer") ∷ []

command_policy_sets_example :
    (d : Data) × (on_policy_interest
        (command_policy owner of_producer kitchen (text "cook"))
        valid
        (owned cp_producer)
      ≡ (
        ok (some d),
        record (owned cp_producer) { m_policies = add_new_policy kitchen (text "cook") policies },
      ))
    × (on_reply (data_reply true d) ≡ some (success d))
unfolding find_certificate_from_local find frames
command_policy_sets_example =
    command_policy_sets owner (owned cp_producer) kitchen (text "cook") valid refl refl

abbrev commanded : Producer
commanded =
    (on_policy_interest (command_policy owner of_producer kitchen (text "cook")) valid
      (owned cp_producer)).1

abbrev answer : Option Data
answer =
    some (reply (command_policy owner of_producer kitchen (text "cook")) true (owned cp_producer))

command_policy_governs_example : find_matched_policy lamp commanded.m_policies ≡ text "cook"
unfolding find_certificate_from_local find frames frame body unframes read on_policy_interest
    generate_reply command_policy command_interest
command_policy_governs_example =
    command_policy_governs owner (owned cp_producer) commanded kitchen lamp (text "cook") valid
      answer refl refl ((refl, tt), (tt, tt)) refl (omega arith)
      ((λ _. omega arith), ((λ _. omega arith), tt)) refl

command_attributes_sets_example :
    (d : Data) × (on_policy_interest
        (command_attributes owner of_producer kitchen (text "cook" ∷ text "owner" ∷ []))
        valid
        (owned kp_producer)
      ≡ (
        ok (some d),
        record (owned kp_producer) {
          m_attributes = add_new_attributes kitchen (text "cook" ∷ text "owner" ∷ []) [];
        },
      ))
    × (on_reply (data_reply true d) ≡ some (success d))
unfolding find_certificate_from_local find frames
command_attributes_sets_example =
    command_attributes_sets owner (owned kp_producer) kitchen (text "cook" ∷ text "owner" ∷ [])
      valid refl refl

-- a command that somebody else has signed
abbrev forged : Interest
forged =
    command_policy (record { m_cert = named (text "mallory") }) of_producer kitchen (text "mallory")

unauthentic_ignored_example :
    ((on_policy_interest forged valid (owned cp_producer)).1 ≡ owned cp_producer)
    × ((d : Data) → (on_policy_interest forged valid (owned cp_producer)).0 ≢ ok (some d))
unfolding find_certificate_from_local find frames command_policy command_interest
unauthentic_ignored_example = unauthentic_ignored forged valid (owned cp_producer) refl

abbrev early_producer : Producer
early_producer = record (owned cp_producer) {
  m_param_fetcher = record cp_producer.m_param_fetcher { m_abe_type = [] };
}
