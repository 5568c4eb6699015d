-- ===== src/Producer/Produce.antt =====
-- producer.cpp: `ckDataGen`, the overloads of `produce`, and `getCkEncryptedData`.
pub mod Links
use nac_abe.Common.{
  ℕ, Bytes, Bool, true, false, not, Option, none, some, List, [], ◌∷◌, bytes_beq, if◌then◌else◌,
}
use nac_abe.Common.Text.{until_nul}
use nac_abe.Common.Result.{Result, ok, err, invalid_argument, out_of_range, or_throw, ◌>>=◌}
use nac_abe.Constants.{content_key, encrypt_by, abe_type_cp_abe, abe_type_kp_abe, tlv_attribute}
use nac_abe.Ndn.{Ndn}
use nac_abe.Packets.{Data}
use nac_abe.Security.{Security}
use nac_abe.OpenAbe.{OpenAbe}
use nac_abe.Algo.Content.{ContentKey, CipherText, make_ck_content, make_data_content}
use nac_abe.Algo.Context.{encrypt}
use nac_abe.Algo.Support.{cp_content_key_gen, kp_content_key_gen}
use nac_abe.ParamFetcher.{ParamFetcher}
use nac_abe.Producer.Policies.{find_matched_policy, find_matched_attributes}
use nac_abe.Producer.Decimal.{to_string}
use nac_abe.Producer.State.{Draw, Template, Producer}

module _ ⦃ndn : Ndn⦄ ⦃sec : Security⦄ ⦃abe : OpenAbe⦄ where
  open ndn use {
    Name, Component, append, append_name, drop_last, generic, wire, push_back, name_block,
    make_binary_block, empty_component, push_component,
  }
  open sec use {segment}

  -- A null content key, or one with its segments.
  abbrev pub KeyData : Type 0
  KeyData = Option (ContentKey × List Data)

  -- Data segments and content key segments.
  abbrev pub Produced : Type 0
  Produced = List Data × List Data

  abbrev pub nothing : Produced
  nothing = ([], [])

  -- /<identity>/CK/<word>/ENC-BY/<what it is encrypted for>
  unfoldable pub ck_data_name : Producer → Draw → Component → Result Name
  ck_data_name p draw by = do
    identity ← or_throw invalid_argument (sec.identity_from_cert_name (sec.cert_name p.m_cert))
    ok (
        append
          (append (append (append identity (generic content_key)) (generic (to_string draw.word)))
            (generic encrypt_by))
          by)

  -- The content key's block in segments, under that name.
  unfoldable pub ck_segments :
      Producer → Draw → Component → ContentKey → Template → ℕ → Result KeyData
  unfolding ck_data_name
  ck_segments p draw by key template max_segment_size = do
    name ← ck_data_name p draw by
    ok (
        some (
          key,
          segment (wire (make_ck_content key)) name max_segment_size template.freshness
              template.content_type,
        ))

  -- `accessPolicy.c_str()` ends at the first NUL.
  unfoldable pub ck_data_gen_policy : Producer → Draw → Bytes → Template → ℕ → Result KeyData
  unfolding ck_segments
  ck_data_gen_policy p draw access_policy template max_segment_size =
      if bytes_beq p.m_param_fetcher.m_pub_params_cache.m_pub []
      then ok none
      else if not (bytes_beq p.m_param_fetcher.m_abe_type abe_type_cp_abe)
      then ok none
      else do
        key ←
            cp_content_key_gen p.m_param_fetcher.m_pub_params_cache access_policy draw.key_seed
              draw.seal_seed
        ck_segments p draw (generic (until_nul access_policy)) key template max_segment_size

  -- The component of the attributes: one TLV block for each.
  unfoldable pub attributes_component : Component → List Bytes → Component
  attributes_component nc [] = nc
  attributes_component nc (a ∷ rest) =
      attributes_component (push_component nc (make_binary_block tlv_attribute a)) rest

  unfoldable pub ck_data_gen_attributes :
      Producer → Draw → List Bytes → Template → ℕ → Result KeyData
  unfolding ck_segments attributes_component
  ck_data_gen_attributes p draw attributes template max_segment_size =
      if bytes_beq p.m_param_fetcher.m_pub_params_cache.m_pub []
      then ok none
      else if not (bytes_beq p.m_param_fetcher.m_abe_type abe_type_kp_abe)
      then ok none
      else do
        key ←
            kp_content_key_gen p.m_param_fetcher.m_pub_params_cache attributes draw.key_seed
              draw.seal_seed
        ck_segments p draw (attributes_component empty_component attributes) key template
            max_segment_size

  -- The block of an encrypted object: the ciphertext, its plaintext's size, and the key's name.
  abbrev pub data_block : CipherText → Name → ndn.Block
  data_block cipher_text ck_name = push_back (make_data_content cipher_text) (name_block ck_name)

  unfoldable pub get_ck_encrypted_data :
      Producer → Draw → Name → CipherText → Name → Template → ℕ → List Data
  get_ck_encrypted_data p draw data_name_suffix cipher_text ck_name template max_segment_size =
      segment (wire (data_block cipher_text ck_name))
        (append_name (sec.identity p.m_cert) data_name_suffix) max_segment_size template.freshness
        template.content_type

  -- `produce` under a content key that is at hand
  unfoldable pub produce_with_key :
      Producer → Draw → ContentKey → Name → Name → Bytes → Template → ℕ → Result (List Data)
  unfolding get_ck_encrypted_data
  produce_with_key p draw key key_name data_name_suffix content template max_segment_size = do
    cipher_text ← encrypt key content draw.sym_seed
    ok (
        get_ck_encrypted_data p draw data_name_suffix cipher_text key_name template
          max_segment_size)

  -- `contentKey.second.at(0)->getName().getPrefix(-1)`
  unfoldable pub ck_object_name : List Data → Result Name
  ck_object_name [] = err out_of_range
  ck_object_name (d ∷ rest) = ok (drop_last d.name)

  -- What both overloads do with the outcome of their `ckDataGen`.
  unfoldable pub produce_with_key_data :
      Producer → Draw → KeyData → Name → Bytes → Template → ℕ → Result Produced
  unfolding produce_with_key ck_object_name
  produce_with_key_data p draw none data_name_suffix content template max_segment_size = ok nothing
  produce_with_key_data p draw (some (key, segments)) data_name_suffix content template
        max_segment_size =
      do
        name ← ck_object_name segments
        data_segments ←
            produce_with_key p draw key name data_name_suffix content template max_segment_size
        ok (data_segments, segments)

  unfoldable pub produce_for_policy :
      Producer → Draw → Name → Bytes → Bytes → Template → Template → ℕ → Result Produced
  unfolding ck_data_gen_policy produce_with_key_data
  produce_for_policy p draw data_name_suffix access_policy content ck_template template
        max_segment_size =
      do
        k ← ck_data_gen_policy p draw access_policy ck_template max_segment_size
        produce_with_key_data p draw k data_name_suffix content template max_segment_size

  unfoldable pub produce_for_attributes :
      Producer → Draw → Name → List Bytes → Bytes → Template → Template → ℕ → Result Produced
  unfolding ck_data_gen_attributes produce_with_key_data
  produce_for_attributes p draw data_name_suffix attributes content ck_template template
        max_segment_size =
      do
        k ← ck_data_gen_attributes p draw attributes ck_template max_segment_size
        produce_with_key_data p draw k data_name_suffix content template max_segment_size

  abbrev is_empty : List Bytes → Bool
  is_empty [] = true
  is_empty (a ∷ rest) = false

  -- What the tables say decides what the data is encrypted for.
  unfoldable pub produce_by_prefix :
      Producer → Draw → Name → Bytes → Template → Template → ℕ → Result Produced
  unfolding produce_for_policy produce_for_attributes
  produce_by_prefix p draw data_name_suffix content ck_template template max_segment_size =
      if bytes_beq p.m_param_fetcher.m_abe_type abe_type_cp_abe
      then (let policy = find_matched_policy data_name_suffix p.m_policies in
          if bytes_beq policy []
          then ok nothing
          else produce_for_policy p draw data_name_suffix policy content ck_template template
              max_segment_size)
      else if bytes_beq p.m_param_fetcher.m_abe_type abe_type_kp_abe
      then (let attributes = find_matched_attributes data_name_suffix p.m_attributes in
          if is_empty attributes
          then ok nothing
          else produce_for_attributes p draw data_name_suffix attributes content ck_template
              template max_segment_size)
      else ok nothing
