-- ===== src/AttributeAuthority/Params.antt =====
-- attribute-authority.cpp and param-fetcher.cpp: the way of the public parameters.
use mathlib.Core.List.{append_assoc}
use nac_abe.Common.{ℕ, ◌+◌, ◌≡◌, refl, true, none, some, [], ◌∷◌, arith, inl, inr, leb, Bool-cases}
use nac_abe.Common.Text.{has_no_nul}
use nac_abe.Common.Result.{ok}
use nac_abe.Constants.{public_params}
use nac_abe.Ndn.{Ndn}
use nac_abe.Ndn.Positions.{at_behind}
use nac_abe.Packets.{Interest}
use nac_abe.Security.{Security, valid}
use nac_abe.Algo.Keys.{params_from_buffer, params_from_buffer-to_buffer}
use nac_abe.ParamFetcher.{
  ParamFetcher, fetch_public_params, on_answer, data_answer, is_supported, max_retries,
}
use nac_abe.AttributeAuthority.State.{AttributeAuthority, on_public_params_request}

module _ ⦃ndn : Ndn⦄ ⦃sec : Security⦄ where
  open ndn use {Name, components, append, generic, version, at, size, read_component}

  answer_type :
      {Token : Type 0} (a : AttributeAuthority Token) (prefix : Name) (i : Interest) (time : ℕ)
      → i.name ≡ append prefix (generic public_params)
      → at (on_public_params_request a i time).name (size prefix + 1) ≡ some (generic a.m_abe_type)
  unfolding on_public_params_request
  answer_type a prefix i time e =
      at_behind _ prefix (generic public_params ∷ generic a.m_abe_type ∷ version time ∷ []) 1
        (rw e (simp (ndn.components-append, append_assoc)))

  fetched :
      (f f' : ParamFetcher) (i : Interest)
      → fetch_public_params f ≡ (ok i, f')
      → (i.name ≡ append f.m_attr_authority_prefix (generic public_params))
        × (f' ≡ record f { m_retry_count = f.m_retry_count + 1 })
  unfolding fetch_public_params
  fetched f f' i h = elim (Bool-cases (leb max_retries f.m_retry_count)) [
    | inl e ↦ absurd (ground arith)
    | inr e ↦ (ground arith, ground arith)
  ]

  content_lem :
      {Token : Type 0} (a : AttributeAuthority Token) (i : Interest) (time : ℕ)
      → has_no_nul a.m_pub_params.m_pub ≡ true
      → params_from_buffer (on_public_params_request a i time).content ≡ ok a.m_pub_params
  unfolding on_public_params_request
  content_lem a i time h = params_from_buffer-to_buffer a.m_pub_params h

  -- A fetcher that asks the authority, and is given its answer by the validator, has the
  -- authority's parameters and type, and its retries back.
  pub on_answer-on_public_params_request :
      {Token : Type 0} (a : AttributeAuthority Token) (f f' : ParamFetcher) (i : Interest)
      (time : ℕ)
      → has_no_nul a.m_pub_params.m_pub ≡ true
      → is_supported a.m_abe_type ≡ true
      → fetch_public_params f ≡ (ok i, f')
      → on_answer (data_answer (on_public_params_request a i time) valid) f' ≡ (
        ok none,
        record f {
          m_retry_count = 0;
          m_abe_type = a.m_abe_type;
          m_pub_params_cache = a.m_pub_params;
        },
      )
  unfolding on_answer
  on_answer-on_public_params_request a f f' i time h k e =
      let (named, q) = fetched f f' i e in
      rw q (
        rw
          (
            answer_type a f.m_attr_authority_prefix i time named,
            on_answer,
            ndn.read_component-generic a.m_abe_type,
            k,
            content_lem a i time h,
          )
          refl)
