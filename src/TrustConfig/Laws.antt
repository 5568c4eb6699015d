-- ===== src/TrustConfig/Laws.antt =====
-- trust-config.cpp: what a trust configuration holds.
use nac_abe.Common.{
  [], ◌∷◌, Bytes, text, Option-cases, ◌≡◌, List, ◌==◌, if◌then◌else◌, some, arith, Bool-cases, inl,
  inr,
}
use nac_abe.Common.Map.{find, insert, find-put, find-insert}
use nac_abe.Ndn.{Ndn, name_eq}
use nac_abe.Security.{Security}
use nac_abe.TrustConfig.{
  TrustConfig, empty_trust, JsonFile, unreadable, parsed, parse_items, parse, load,
  add_or_update_certificate, find_certificate_from_local,
}

module _ ⦃ndn : Ndn⦄ ⦃sec : Security⦄ where
  open ndn use {Name}
  open sec use {Certificate, key_name}

  -- Each certificate is filed under its own key name.
  abbrev pub IsFiled : TrustConfig → Type 0
  IsFiled t =
      (n : Name) (c : Certificate) → find_certificate_from_local n t ≡ some c → key_name c ≡ n

  -- After `addOrUpdateCertificate` the certificate's key name has this certificate, whether or not
  -- it had one before, and every other key name has what it had.
  find-add_or_update :
      (c : Certificate) (t : TrustConfig) (n : Name)
      → find_certificate_from_local n (add_or_update_certificate c t)
        ≡ (if key_name c == n then some c else find_certificate_from_local n t)
  unfolding find_certificate_from_local add_or_update_certificate
  find-add_or_update c t n = ground (
    arith,
    find-put (key_name c) n c t.m_known_keys,
    find-insert (key_name c) n c t.m_known_keys,
    ndn.name_beq_iff (key_name c) n,
  )

  pub add_or_update-IsFiled :
      (c : Certificate) (t : TrustConfig) → IsFiled t → IsFiled (add_or_update_certificate c t)
  add_or_update-IsFiled c t h n d e =
      ground (arith, find-add_or_update c t n, ndn.name_beq_iff (key_name c) n, h n d)

  entered-IsFiled :
      (c : Certificate) (t : TrustConfig)
      → IsFiled t
      → IsFiled (record t { m_known_keys = insert (key_name c) c t.m_known_keys })
  unfolding find_certificate_from_local
  entered-IsFiled c t h n d e =
      ground
        (arith, find-insert (key_name c) n c t.m_known_keys, ndn.name_beq_iff (key_name c) n, h n d)

  parse_items-IsFiled :
      (items : List sec.JsonSection) (t : TrustConfig) → IsFiled t → IsFiled (parse_items items t).1
  unfolding parse_items
  parse_items-IsFiled [] t h = h
  parse_items-IsFiled (item ∷ rest) t h =
      elim (Option-cases (sec.get_string (text "certificate") item)) [
        | inl e ↦ rw e h
        | inr (s, e) ↦ elim (Option-cases (sec.load_certificate s)) [
          | inl e' ↦ rw (e, e') h
          | inr (c, e') ↦ rw (e, e') (parse_items-IsFiled rest _ (entered-IsFiled c t h))
        ]
      ]

  pub cleared-IsFiled : IsFiled empty_trust
  unfolding find_certificate_from_local find
  cleared-IsFiled n c e = cc

  parse-IsFiled : (json : sec.JsonSection) (t : TrustConfig) → IsFiled (parse json t).1
  unfolding parse
  parse-IsFiled json t = elim (Option-cases (sec.get_child (text "certificate-list") json)) [
    | inl e ↦ rw e cleared-IsFiled
    | inr (s, e) ↦ rw e (parse_items-IsFiled (sec.children s) empty_trust cleared-IsFiled)
  ]

  -- Whatever a configuration file holds, and also where `load` throws half-way, each certificate
  -- stays filed under its own key name.
  pub load-IsFiled :
      (file_name : Bytes) (file : JsonFile) (t : TrustConfig)
      → IsFiled t
      → IsFiled (load file_name file t).1
  unfolding load
  load-IsFiled file_name (unreadable message line) t h = h
  load-IsFiled file_name (parsed json) t h = elim (Bool-cases (sec.is_empty json)) [
    | inl e ↦ rw e h
    | inr e ↦ rw e (parse-IsFiled json t)
  ]
