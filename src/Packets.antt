-- ===== src/Packets.antt =====
-- ndn::Interest and ndn::Data: the fields that the code sets and reads.
use nac_abe.Common.{ℕ, Bytes, Bool, false, Option, none, []}
use nac_abe.Ndn.{Ndn}

module _ ⦃ndn : Ndn⦄ where
  open ndn use {Name}

  -- A nonce is fresh whenever an Interest is sent and is read nowhere; `lifetime` in milliseconds.
  pub record Interest : Type 0 where
    pub name : Name
    pub must_be_fresh : Bool
    pub can_be_prefix : Bool
    pub lifetime : Option ℕ
    pub signature : Option Bytes

  abbrev pub interest : Name → Interest
  interest n = record {
    name = n;
    must_be_fresh = false;
    can_be_prefix = false;
    lifetime = none;
    signature = none;
  }

  -- `content` is the value of the Content block; `freshness` in milliseconds.
  pub record Data : Type 0 where
    pub name : Name
    pub content : Bytes
    pub freshness : ℕ
    pub content_type : ℕ

  abbrev pub data_template : Name → Data
  data_template n = record { name = n; content = []; freshness = 0; content_type = 0 }
