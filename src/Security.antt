-- ===== src/Security.antt =====
-- Certificates, signatures and segmentation of ndn-cxx, and property trees of Boost: a parameter.
use nac_abe.Common.{
  ℕ, Bytes, Bool, true, ◌≡◌, ◌≢◌, Option, some, List, [], ◌∷◌, ◌++◌, All, concat_map,
}
use nac_abe.Ndn.{Ndn}
use nac_abe.Packets.{Interest, Data}

-- What `Validator::validate` comes to: its success or its failure callback, with the error's info.
pub data Validation : Type 0 where
  valid : Validation
  invalid : Bytes → Validation

pub record Security ⦃ndn : Ndn⦄ : Type 1 where
  pub Certificate : Type 0
  pub cert_name : Certificate → ndn.Name
  pub key_name : Certificate → ndn.Name
  pub identity : Certificate → ndn.Name
  pub public_key : Certificate → Bytes
  -- `isValidKeyName`, `extractIdentityFromKeyName` and so on, which throw on other names
  pub is_valid_key_name : ndn.Name → Bool
  pub identity_from_key_name : ndn.Name → Option ndn.Name
  pub key_name_from_cert_name : ndn.Name → Option ndn.Name
  pub identity_from_cert_name : ndn.Name → Option ndn.Name
  pub is_valid_key_name-key_name : (c : Certificate) → is_valid_key_name (key_name c) ≡ true
  pub identity_from_key_name-key_name :
      (c : Certificate) → identity_from_key_name (key_name c) ≡ some (identity c)
  pub key_name_from_cert_name-cert_name :
      (c : Certificate) → key_name_from_cert_name (cert_name c) ≡ some (key_name c)
  pub identity_from_cert_name-cert_name :
      (c : Certificate) → identity_from_cert_name (cert_name c) ≡ some (identity c)
  -- `security::Certificate(data)`, which throws where the packet is no certificate
  pub certificate_from_data : Data → Option Certificate
  -- `KeyChain::sign(interest, signingByCertificate(c))`: the name of a signed Interest goes on
  -- with a digest of its parameters
  pub sign_interest : Certificate → Interest → Interest
  pub components-sign_interest :
      (c : Certificate) (i : Interest)
      → (digest : ndn.Component) × (ndn.components (sign_interest c i).name
          ≡ ndn.components i.name ++ digest ∷ [])
  pub verify_signature : Interest → Certificate → Bool
  pub verify_signature-sign_interest :
      (c : Certificate) (i : Interest) → verify_signature (sign_interest c i) c ≡ true
  -- `Segmenter::segment(buffer, name, maxSegmentSize, freshness, contentType)`: the name goes on
  -- with a segment's number
  pub segment : Bytes → ndn.Name → ℕ → ℕ → ℕ → List Data
  pub segment-ne-nil : (b : Bytes) (n : ndn.Name) (m f t : ℕ) → segment b n m f t ≢ []
  pub segment_names :
      (b : Bytes) (n : ndn.Name) (m f t : ℕ)
      → All (λ d. (i : ℕ) × (d.name ≡ ndn.append n (ndn.segment i))) (segment b n m f t)
  pub segment_contents :
      (b : Bytes) (n : ndn.Name) (m f t : ℕ) → concat_map (λ d. d.content) (segment b n m f t) ≡ b
  -- boost::property_tree::ptree
  pub JsonSection : Type 0
  pub is_empty : JsonSection → Bool
  pub get_child : Bytes → JsonSection → Option JsonSection
  pub children : JsonSection → List JsonSection
  pub get_string : Bytes → JsonSection → Option Bytes
  -- `write_json`, which throws where the tree has no JSON form, and `read_json`, where a text has none
  pub write_json : JsonSection → Option Bytes
  pub read_json : Bytes → Option JsonSection
  pub read_json-write_json :
      (j : JsonSection) (s : Bytes) → write_json j ≡ some s → read_json s ≡ some j
  -- `io::load<Certificate>`, which gives a null pointer where the text is no certificate
  pub load_certificate : Bytes → Option Certificate
