-- ===== src/TrustConfig.antt =====
-- trust-config: the certificates that a party trusts, by their key names.
pub mod Laws
use nac_abe.Common.{
  ℕ, Bytes, text, Bool, true, false, ◌++◌, Option, none, some, List, [], ◌∷◌, is_some,
  if◌then◌else◌, Eq,
}
use nac_abe.Common.Map.{Map, find, put, insert}
use nac_abe.Common.Result.{
  Result, ok, err, Exception, runtime_error, bad_path, undefined, invalid_argument, or_throw,
}
use nac_abe.Common.Exec.{Exec, pure, modify, throw, lift, ◌>>=◌, ◌>>◌}
use nac_abe.Ndn.{Ndn, name_eq}
use nac_abe.Packets.{Interest, Data, interest}
use nac_abe.Security.{Security, Validation, valid, invalid}

module _ ⦃ndn : Ndn⦄ ⦃sec : Security⦄ where
  open ndn use {Name}
  open sec use {
    Certificate, JsonSection, key_name, is_empty, get_child, children, get_string, load_certificate,
    certificate_from_data,
  }

  pub record TrustConfig : Type 0 where
    pub m_known_keys : Map Name Certificate

  abbrev pub empty_trust : TrustConfig
  empty_trust = record { m_known_keys = [] }

  -- the loop of `parse`: an entry that is there stays, and a throw keeps what has been entered
  unfoldable pub parse_items : List JsonSection → Exec TrustConfig (Unit {0})
  parse_items [] = pure tt
  parse_items (item ∷ rest) = do
    s ← lift (or_throw bad_path (get_string (text "certificate") item))
    c ← lift (or_throw undefined (load_certificate s))
    modify (λ t. record t { m_known_keys = insert (key_name c) c t.m_known_keys })
    parse_items rest

  unfoldable pub parse : JsonSection → Exec TrustConfig (Unit {0})
  unfolding parse_items
  parse json = do
    modify (λ t. record t { m_known_keys = [] })
    ca_list ← lift (or_throw bad_path (get_child (text "certificate-list") json))
    parse_items (children ca_list)

  -- `read_json` fails with a message and a line number, which comes as a text.
  pub data JsonFile : Type 0 where
    parsed : JsonSection → JsonFile
    unreadable : Bytes → Bytes → JsonFile

  unfoldable pub load : Bytes → JsonFile → Exec TrustConfig (Unit {0})
  unfolding parse
  load file_name (unreadable message line) = throw (
      runtime_error (
        text "Failed to parse configuration file "
        ++ file_name
        ++ text " "
        ++ message
        ++ text " line "
        ++ line))
  load file_name (parsed json) =
      if is_empty json
      then throw (
          runtime_error
            (text "Error processing configuration file: " ++ file_name ++ text " no data"))
      else parse json

  unfoldable pub add_or_update_certificate : Certificate → TrustConfig → TrustConfig
  add_or_update_certificate c t =
      if is_some (find (key_name c) t.m_known_keys)
      then record t { m_known_keys = put (key_name c) c t.m_known_keys }
      else record t { m_known_keys = insert (key_name c) c t.m_known_keys }

  unfoldable pub find_certificate_from_local : Name → TrustConfig → Option Certificate
  find_certificate_from_local n t = find n t.m_known_keys

  -- what comes back for the Interest that `findCertificateFromNetwork` sends
  pub data Reply : Type 0 where
    data_reply : Data → Validation → Reply
    nack_reply timeout_reply : Reply

  unfoldable pub certificate_interest : Name → Interest
  certificate_interest n = record (interest n) { can_be_prefix = true }

  -- the callback that is called: `onSuccess` with a certificate, or `onFailure` with a text
  pub data Found : Type 0 where
    success : Certificate → Found
    failure : Bytes → Found

  unfoldable pub find_certificate_from_network : Reply → Result Found
  find_certificate_from_network (data_reply d valid) = elim (certificate_from_data d) [
    | none ↦ err invalid_argument
    | some c ↦ ok (success c)
  ]
  find_certificate_from_network (data_reply d (invalid info)) = ok (failure info)
  find_certificate_from_network nack_reply = ok (failure (text "nack"))
  find_certificate_from_network timeout_reply = ok (failure (text "timeout"))
