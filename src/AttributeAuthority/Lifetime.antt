-- ===== src/AttributeAuthority/Lifetime.antt =====
-- attribute-authority.cpp: an authority from its construction on, with its tokens and requests.
use mathlib.Core.Path.{subst}
use nac_abe.Common.{ℕ, ◌≡◌, refl, ap, some, List, [], Member, arith, inl, inr, Option-cases}
use nac_abe.Common.Map.{find, insert, find-insert}
use nac_abe.Common.Result.{Result, ok, Result-cases}
use nac_abe.Ndn.{Ndn, name_eq}
use nac_abe.Packets.{Interest, Data}
use nac_abe.Security.{Security}
use nac_abe.OpenAbe.{OpenAbe}
use nac_abe.Algo.Keys.{PublicParams, MasterKey, PrivateKey}
use nac_abe.Algo.Support.{cp_init, kp_init, cp_prv_key_gen, kp_prv_key_gen}
use nac_abe.TrustConfig.{Reply}
use nac_abe.NdnCrypto.{Crypto}
use nac_abe.AttributeAuthority.State.{
  IssueDraw, AttributeAuthority, CpAttributeAuthority, KpAttributeAuthority, GetPrivateKey,
  add_new_policy, add_new_policy_for, cp_get_private_key, kp_get_private_key, new_authority,
  new_cp_authority, new_kp_authority,
}
use nac_abe.AttributeAuthority.Request.{
  on_token_request, cp_on_decryption_key_request, kp_on_decryption_key_request,
}
use nac_abe.AttributeAuthority.Handled.{on_token_request-Handled}
use nac_abe.AttributeAuthority.Entitled.{
  IsEntitled, IsProper, IsByToken, Extends-IsProper, Handled-AreProper, AreProper,
}

module _ ⦃ndn : Ndn⦄ ⦃sec : Security⦄ ⦃abe : OpenAbe⦄ ⦃crypto : Crypto⦄ where
  open ndn use {Name}

  -- What happens to an authority: tokens are given, with or without a certificate, and keys are
  -- requested, with any Interest, also where the handler throws.
  pub data Life {Token : Type 0} (get_private_key : GetPrivateKey Token)
      (a : AttributeAuthority Token) : AttributeAuthority Token → Type 0 where
    begins : Life get_private_key a a
    grants :
        (b : AttributeAuthority Token) (n : Name) (token : Token)
        → Life get_private_key a b
        → Life get_private_key a (add_new_policy n token b)
    certifies :
        (b : AttributeAuthority Token) (c : sec.Certificate) (token : Token)
        → Life get_private_key a b
        → Life get_private_key a (add_new_policy_for c token b)
    requests :
        (b : AttributeAuthority Token) (i : Interest) (reply : Reply) (draw : IssueDraw)
        → Life get_private_key a b
        → Life get_private_key a (on_token_request get_private_key i reply draw b).1

  kept_token :
      {Token : Type 0} (n m : Name) (token other : Token) (a : AttributeAuthority Token)
      → find m a.m_tokens ≡ some other
      → find m (insert n token a.m_tokens) ≡ some other
  kept_token n m token other a h =
      ground (arith, find-insert n m token a.m_tokens, ndn.name_beq_iff n m)

  module _ {Token : Type 0} (generate : PublicParams → MasterKey → Token → ℕ → Result PrivateKey)
      (get_private_key : GetPrivateKey Token) (by_token : IsByToken generate get_private_key) where
    Life-IsProper :
        (a b : AttributeAuthority Token)
        → IsProper generate a
        → Life get_private_key a b
        → IsProper generate b
    Life-IsProper a b p begins = p
    Life-IsProper a b p (grants c n token l) =
        Extends-IsProper generate get_private_key by_token c (add_new_policy n token c)
          (unfold add_new_policy in
            record {
              same_params = refl;
              same_master = refl;
              keeps_token = λ m other h. kept_token n m token other c h;
            })
          (unfold add_new_policy in refl) (Life-IsProper a c p l)
    Life-IsProper a b p (certifies c cert token l) =
        Extends-IsProper generate get_private_key by_token c (add_new_policy_for cert token c)
          (unfold add_new_policy_for in
            record {
              same_params = refl;
              same_master = refl;
              keeps_token = λ m other h. kept_token (sec.identity cert) m token other c h;
            })
          (unfold add_new_policy_for in refl) (Life-IsProper a c p l)
    Life-IsProper a b p (requests c i reply draw l) =
        (Handled-AreProper generate get_private_key by_token c (Life-IsProper a c p l)
          (on_token_request-Handled get_private_key c i reply draw)).0

  cp-IsByToken : IsByToken cp_prv_key_gen cp_get_private_key
  unfolding cp_get_private_key
  cp-IsByToken a n r key h = elim (Option-cases (find n a.m_tokens)) [
    | inl e ↦ absurd (ground arith)
    | inr (token, e) ↦ (token, e, ground arith)
  ]

  kp-IsByToken : IsByToken kp_prv_key_gen kp_get_private_key
  unfolding kp_get_private_key
  kp-IsByToken a n r key h = elim (Option-cases (find n a.m_tokens)) [
    | inl e ↦ absurd (ground arith)
    | inr (token, e) ↦ (token, e, ground arith)
  ]

  empty-IsProper :
      {Token : Type 0} (generate : PublicParams → MasterKey → Token → ℕ → Result PrivateKey)
      (a : AttributeAuthority Token)
      → a.m_segment_map ≡ []
      → IsProper generate a
  unfolding find
  empty-IsProper generate a e d n ds f m = absurd (ground (arith, ap (find n) e))

  new_cp_lem :
      (cert : sec.Certificate) (r : ℕ) (a : CpAttributeAuthority)
      → new_cp_authority cert r ≡ ok a
      → a.m_segment_map ≡ []
  unfolding new_cp_authority new_authority
  new_cp_lem cert r a h = elim (Result-cases (cp_init r)) [
    | inl (keys, e) ↦ ground arith
    | inr (x, e) ↦ absurd (ground arith)
  ]

  new_kp_lem :
      (cert : sec.Certificate) (limit r : ℕ) (a : KpAttributeAuthority)
      → new_kp_authority cert limit r ≡ ok a
      → a.m_segment_map ≡ []
  unfolding new_kp_authority new_authority
  new_kp_lem cert limit r a h = elim (Result-cases (kp_init r)) [
    | inl (keys, e) ↦ ground arith
    | inr (x, e) ↦ absurd (ground arith)
  ]

  -- Whatever tokens a CP-ABE authority has been given, and whatever requests it has had, every packet
  -- that it puts for a request belongs to a key that was generated for the attributes of an identity
  -- with a token, and was encrypted for a certificate of that identity.
  pub cp_put-IsEntitled :
      (cert : sec.Certificate) (r : ℕ) (a b b' : CpAttributeAuthority) (i : Interest)
      (reply : Reply) (draw : IssueDraw) (ds : List Data) (d : Data)
      → new_cp_authority cert r ≡ ok a
      → Life cp_get_private_key a b
      → cp_on_decryption_key_request i reply draw b ≡ (ok ds, b')
      → Member d ds
      → IsEntitled cp_prv_key_gen b' d
  unfolding cp_on_decryption_key_request
  cp_put-IsEntitled cert r a b b' i reply draw ds d h l e m =
      let p =
        Life-IsProper cp_prv_key_gen cp_get_private_key cp-IsByToken a b
          (empty-IsProper cp_prv_key_gen a (new_cp_lem cert r a h)) l in
      let q = subst (AreProper cp_prv_key_gen cp_get_private_key cp-IsByToken) e (
        Handled-AreProper cp_prv_key_gen cp_get_private_key cp-IsByToken b p
          (on_token_request-Handled cp_get_private_key b i reply draw)) in
      q.1 ds d refl m

  -- Whatever tokens a KP-ABE authority has been given, and whatever requests it has had, every packet
  -- that it puts for a request belongs to a key that was generated for the policy of an identity with
  -- a token, and was encrypted for a certificate of that identity.
  pub kp_put-IsEntitled :
      (cert : sec.Certificate) (limit r : ℕ) (a b b' : KpAttributeAuthority) (i : Interest)
      (reply : Reply) (draw : IssueDraw) (ds : List Data) (d : Data)
      → new_kp_authority cert limit r ≡ ok a
      → Life kp_get_private_key a b
      → kp_on_decryption_key_request i reply draw b ≡ (ok ds, b')
      → Member d ds
      → IsEntitled kp_prv_key_gen b' d
  unfolding kp_on_decryption_key_request
  kp_put-IsEntitled cert limit r a b b' i reply draw ds d h l e m =
      let p =
        Life-IsProper kp_prv_key_gen kp_get_private_key kp-IsByToken a b
          (empty-IsProper kp_prv_key_gen a (new_kp_lem cert limit r a h)) l in
      let q = subst (AreProper kp_prv_key_gen kp_get_private_key kp-IsByToken) e (
        Handled-AreProper kp_prv_key_gen kp_get_private_key kp-IsByToken b p
          (on_token_request-Handled kp_get_private_key b i reply draw)) in
      q.1 ds d refl m
