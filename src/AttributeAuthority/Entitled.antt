-- ===== src/AttributeAuthority/Entitled.antt =====
-- attribute-authority.cpp: for whom the keys are that an authority gives out.
use nac_abe.Common.{
  ℕ, ◌≡◌, refl, sym, ap, ◌∙◌, some, List, [], ◌∷◌, Member, arith, inl, inr, Option-cases,
  Bool-cases, ◌==◌,
}
use nac_abe.Common.Map.{find, insert, find-insert}
use nac_abe.Common.Result.{Result, ok}
use nac_abe.Ndn.{Ndn, name_eq}
use nac_abe.Packets.{Data}
use nac_abe.Security.{Security}
use nac_abe.OpenAbe.{OpenAbe}
use nac_abe.Algo.Keys.{PublicParams, MasterKey, PrivateKey, key_to_buffer}
use nac_abe.NdnCrypto.{Crypto, encrypt_data_content_with_ck}
use nac_abe.AttributeAuthority.State.{IssueDraw, AttributeAuthority, GetPrivateKey}
use nac_abe.AttributeAuthority.Request.{first_packet, select, stored_segments}
use nac_abe.AttributeAuthority.Handled.{key_segments, Handled, throws, silent, kept, issues}

module _ ⦃ndn : Ndn⦄ ⦃sec : Security⦄ ⦃abe : OpenAbe⦄ ⦃crypto : Crypto⦄ where
  open ndn use {Name, Block, wire, drop_last}

  select-Member : (d : Data) (n : Name) (ds : List Data) → Member d (select n ds) → Member d ds
  select-Member d n [] m = m
  select-Member d n (e ∷ ds) m = elim (Bool-cases (n == e.name)) [
    | inl q ↦ elim (rw (select, q) at m) [ inl s ↦ inl s | inr m' ↦ inr (select-Member d n ds m') ]
    | inr q ↦ inr (select-Member d n ds (rw (select, q) at m))
  ]

  first_packet-Member : (d : Data) (ds : List Data) → Member d (first_packet ds) → Member d ds
  first_packet-Member d [] m = m
  first_packet-Member d (e ∷ ds) (inl q) = inl q
  first_packet-Member d (e ∷ ds) (inr m) = absurd m

  module _ {Token : Type 0}
      (generate : PublicParams → MasterKey → Token → ℕ → Result PrivateKey) where
    -- The packet is a piece of a key that was generated for the token of a certificate's identity,
    -- and encrypted for the certificate.
    pub record IsEntitled (a : AttributeAuthority Token) (d : Data) : Type 0 where
      pub cert : sec.Certificate
      pub token : Token
      pub draw : IssueDraw
      pub key : PrivateKey
      pub block : Block
      pub object : Name
      pub limit : ℕ
      pub has_token : find (sec.identity cert) a.m_tokens ≡ some token
      pub made : generate a.m_pub_params a.m_master_key token draw.key_seed ≡ ok key
      pub sealed :
          encrypt_data_content_with_ck (key_to_buffer key) (sec.public_key cert) draw.crypto_draw
          ≡ ok block
      pub piece : Member d (sec.segment (wire block) object limit 4000 0)

    -- All that is kept is such.
    abbrev pub IsProper : AttributeAuthority Token → Type 0
    IsProper a =
        (d : Data) (n : Name) (ds : List Data)
        → find n a.m_segment_map ≡ some ds
        → Member d ds
        → IsEntitled a d

    -- A key of the scheme: that of the identity's token, or a throw where it has none.
    abbrev pub IsByToken : GetPrivateKey Token → Type 0
    IsByToken get_private_key =
        (a : AttributeAuthority Token) (n : Name) (r : ℕ) (key : PrivateKey)
        → get_private_key a n r ≡ ok key
        → (token : Token) × (find n a.m_tokens ≡ some token)
          × (generate a.m_pub_params a.m_master_key token r ≡ ok key)

    -- The authority's parameters stay, and so does everybody's token.
    pub record Extends (a a' : AttributeAuthority Token) : Type 0 where
      pub same_params : a'.m_pub_params ≡ a.m_pub_params
      pub same_master : a'.m_master_key ≡ a.m_master_key
      pub keeps_token :
          (n : Name) (token : Token)
          → find n a.m_tokens ≡ some token
          → find n a'.m_tokens ≡ some token

    Extends-IsEntitled :
        (a a' : AttributeAuthority Token) (d : Data)
        → Extends a a'
        → IsEntitled a d
        → IsEntitled a' d
    Extends-IsEntitled a a' d x h = record {
      cert = h.cert;
      token = h.token;
      draw = h.draw;
      key = h.key;
      block = h.block;
      object = h.object;
      limit = h.limit;
      has_token = x.keeps_token (sec.identity h.cert) h.token h.has_token;
      made = rw (x.same_params, x.same_master) h.made;
      sealed = h.sealed;
      piece = h.piece;
    }

    stored_segments-IsEntitled :
        (a : AttributeAuthority Token) (n : Name) (d : Data)
        → IsProper a
        → Member d (stored_segments n a)
        → IsEntitled a d
    stored_segments-IsEntitled a n d p m =
        elim (Option-cases (find (drop_last n) a.m_segment_map)) [
          | inl e ↦ absurd (rw (stored_segments, e) at m)
          | inr (ds, e) ↦
              p d (drop_last n) ds e (select-Member d n ds (rw (stored_segments, e) at m))
        ]

    module _ (get_private_key : GetPrivateKey Token) (by_token : IsByToken get_private_key) where
      issued-IsEntitled :
          (a : AttributeAuthority Token) (c : sec.Certificate) (object : Name) (draw : IssueDraw)
          (key : PrivateKey) (block : Block) (d : Data)
          → get_private_key a (sec.identity c) draw.key_seed ≡ ok key
          → encrypt_data_content_with_ck (key_to_buffer key) (sec.public_key c) draw.crypto_draw
            ≡ ok block
          → Member d (key_segments a object block draw)
          → IsEntitled a d
      issued-IsEntitled a c object draw key block d e f m =
          let (token, h, g) = by_token a (sec.identity c) draw.key_seed key e in
          record {
            cert = c;
            token = token;
            draw = draw;
            key = key;
            block = block;
            object = object;
            limit = a.m_max_segment_size;
            has_token = h;
            made = g;
            sealed = f;
            piece = m;
          }

      Extends-refl : (a : AttributeAuthority Token) → Extends a a
      Extends-refl a = record {
        same_params = refl;
        same_master = refl;
        keeps_token = λ n token h. h;
      }

      pub Extends-IsProper :
          (a a' : AttributeAuthority Token)
          → Extends a a'
          → a'.m_segment_map ≡ a.m_segment_map
          → IsProper a
          → IsProper a'
      Extends-IsProper a a' x e p d n ds f m =
          Extends-IsEntitled a a' d x (p d n ds (sym (ap (find n) e) ∙ f) m)

      -- What is put in an answer, and what is kept after it.
      abbrev pub AreProper : Result (List Data) × AttributeAuthority Token → Type 0
      AreProper p =
          IsProper p.1
          × ((ds : List Data) (d : Data) → p.0 ≡ ok ds → Member d ds → IsEntitled p.1 d)

      keep_one :
          (a a' : AttributeAuthority Token) (object : Name) (segments : List Data)
          → Extends a a'
          → a'.m_segment_map ≡ insert object segments a.m_segment_map
          → ((d : Data) → Member d segments → IsEntitled a d)
          → IsProper a
          → IsProper a'
      keep_one a a' object segments x e new p d n ds f m =
          let q : find n (insert object segments a.m_segment_map) ≡ some ds =
            sym (ap (find n) e) ∙ f in
          elim (Bool-cases (object == n)) [
            | inr other ↦
                Extends-IsEntitled a a' d x
                  (p d n ds (ground (arith, find-insert object n segments a.m_segment_map)) m)
            | inl same ↦ elim (Option-cases (find object a.m_segment_map)) [
              | inl absent ↦
                  let r : segments ≡ ds =
                    ground (arith, find-insert object n segments a.m_segment_map) in
                  Extends-IsEntitled a a' d x (new d (rw r m))
              | inr (old, there) ↦
                  let r : find object a.m_segment_map ≡ some ds =
                    ground (arith, find-insert object n segments a.m_segment_map) in
                  Extends-IsEntitled a a' d x (p d object ds r m)
            ]
          ]

      pub Handled-AreProper :
          (a : AttributeAuthority Token) {p : Result (List Data) × AttributeAuthority Token}
          → IsProper a
          → Handled get_private_key a p
          → AreProper p
      Handled-AreProper a h (throws x) = (h, λ ds d e m. cc)
      Handled-AreProper a h silent =
          (h, λ ds d e m. absurd (let q : [] ≡ ds = ground arith in rw (← q) at m))
      Handled-AreProper a h (kept n) = (
        h,
        λ ds d e m.
            stored_segments-IsEntitled a n d h
              (let q : stored_segments n a ≡ ds = ground arith in rw q m),
      )
      Handled-AreProper a h (issues c object draw key block e f) =
          let a' : AttributeAuthority Token = record a {
            m_segment_map = insert object (key_segments a object block draw) a.m_segment_map;
          } in
          let x : Extends a a' = record {
            same_params = refl;
            same_master = refl;
            keeps_token = λ n token t. t;
          } in
          let new : (d : Data) → Member d (key_segments a object block draw) → IsEntitled a d =
            λ d m. issued-IsEntitled a c object draw key block d e f m in
          (
            keep_one a a' object (key_segments a object block draw) x refl new h,
            λ ds d q m. Extends-IsEntitled a a' d x (
                new d (
                  first_packet-Member d (key_segments a object block draw) (
                    let r : first_packet (key_segments a object block draw) ≡ ds = ground arith in
                    rw r m))),
          )
