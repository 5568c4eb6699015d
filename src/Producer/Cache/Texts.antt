-- ===== src/Producer/Cache/Texts.antt =====
-- cache-producer.cpp: the text that a key for attributes is kept by. It decides the key: the
-- attributes' joined text, less its last character, is all that is encrypted for.
use mathlib.Core.List.{append_assoc}
use nac_abe.Common.{ℕ, Bytes, ◌≡◌, refl, sym, ap, ◌∙◌, List, [], ◌∷◌, ◌++◌, text}
use nac_abe.OpenAbe.{OpenAbe}
use nac_abe.Algo.Keys.{PublicParams}
use nac_abe.Algo.Support.{kp_content_key_gen, policy_string, join_bars, pop_back}
use nac_abe.Producer.Cache.{attributes_text}

attributes_text-join_bars :
    (attributes : List Bytes) → attributes_text attributes ≡ join_bars attributes
unfolding attributes_text join_bars
attributes_text-join_bars [] = refl
attributes_text-join_bars (a ∷ rest) =
    append_assoc a (text "|") (attributes_text rest)
    ∙ ap (λ t. a ++ (b'|' ∷ t)) (attributes_text-join_bars rest)

policy_string_text :
    (attributes others : List Bytes)
    → attributes_text attributes ≡ attributes_text others
    → policy_string attributes ≡ policy_string others
unfolding policy_string
policy_string_text attributes others h =
    ap pop_back (sym (attributes_text-join_bars attributes) ∙ h ∙ attributes_text-join_bars others)

module _ ⦃abe : OpenAbe⦄ where
  pub kp_content_key_gen_text :
      (params : PublicParams) (attributes others : List Bytes) (r r' : ℕ)
      → attributes_text attributes ≡ attributes_text others
      → kp_content_key_gen params attributes r r' ≡ kp_content_key_gen params others r r'
  unfolding kp_content_key_gen
  kp_content_key_gen_text params attributes others r r' h =
      rw (policy_string_text attributes others h)
