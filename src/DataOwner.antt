-- ===== src/DataOwner.antt =====
-- data-owner: the commands that set a producer's policies.
use mathlib.Core.List.{reverse}
use nac_abe.Common.{
  Bytes, text, Bool, true, false, Option, none, some, List, bytes_beq, if◌then◌else◌, [], ◌∷◌, ◌++◌,
}
use nac_abe.Constants.{set_policy, tlv_attribute}
use nac_abe.Ndn.{Ndn}
use nac_abe.Packets.{Interest, Data, interest}
use nac_abe.Security.{Security}

module _ ⦃ndn : Ndn⦄ ⦃sec : Security⦄ where
  open ndn use {Name, Block, append, generic, wire_encode, wire, make_binary_block}

  pub record DataOwner : Type 0 where
    pub m_cert : sec.Certificate

  -- `commandProducerPolicyImpl`: the signed Interest that is expressed.
  unfoldable pub command_interest : DataOwner → Name → Name → Bytes → Interest
  command_interest o prefix data_prefix policy =
      sec.sign_interest o.m_cert
        (record (interest (
          append (append (append prefix (generic set_policy)) (generic (wire_encode data_prefix)))
            (generic policy))) { must_be_fresh = true; lifetime = some 1000 })

  unfoldable pub command_policy : DataOwner → Name → Name → Bytes → Interest
  unfolding command_interest
  command_policy o prefix data_prefix policy = command_interest o prefix data_prefix policy

  -- `prependStringBlock(enc, TLV_Attribute, a)`: before what is in the buffer
  unfoldable pub prepend_attribute : Bytes → Bytes → Bytes
  prepend_attribute enc a = wire (make_binary_block tlv_attribute a) ++ enc

  -- `for (a : attributes | reversed)`, over the reversed list
  unfoldable pub prepend_attributes : Bytes → List Bytes → Bytes
  unfolding prepend_attribute
  prepend_attributes enc [] = enc
  prepend_attributes enc (a ∷ rest) = prepend_attributes (prepend_attribute enc a) rest

  unfoldable pub command_attributes : DataOwner → Name → Name → List Bytes → Interest
  unfolding command_interest prepend_attributes
  command_attributes o prefix data_prefix attributes =
      command_interest o prefix data_prefix (prepend_attributes [] (reverse attributes))

  -- What comes back. The Boolean is `contentInterest.matchesData(contentData)`.
  pub data CommandReply : Type 0 where
    data_reply : Bool → Data → CommandReply
    nack_reply timeout_reply : CommandReply

  pub data Outcome : Type 0 where
    success : Data → Outcome
    failure : Bytes → Outcome

  -- The callback that is called, if one is.
  unfoldable pub on_reply : CommandReply → Option Outcome
  on_reply (data_reply false d) = none
  on_reply (data_reply true d) =
      if bytes_beq d.content (text "success")
      then some (success d)
      else some (failure (text "register failed"))
  on_reply nack_reply = some (failure (text "nack"))
  on_reply timeout_reply = some (failure (text "time out"))
