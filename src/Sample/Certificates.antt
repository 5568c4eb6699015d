-- ===== src/Sample/Certificates.antt =====
-- Toy certificates, signatures and segments: a certificate is an identity and a key, its names are
-- the identity's with what the conventions put behind it; an object is two packets.
use nac_abe.Common.{
  ℕ, Bytes, text, ◌≡◌, ◌≢◌, refl, ap, ◌∙◌, Bool, true, false, Option, none, some, List, [], ◌∷◌,
  ◌++◌, concat_map, map, bytes_beq, arith, if◌then◌else◌,
}
use nac_abe.Common.Text.{bytes_beq_refl}
use nac_abe.Packets.{Interest, Data}
use nac_abe.Security.{Security}
use nac_abe.Sample.Codec.{Field, frames, unframes, unframes-frames}
use nac_abe.Sample.Names.{NameParts, without_last, without_last-append, toy_ndn}
use mathlib.Core.List.{append-nil}

pub record Certificate : Type 0 where
  pub identity : NameParts
  pub public_key : Bytes

abbrev pub key_part : Field
key_part = (8, text "KEY")

abbrev pub cert_part : Field
cert_part = (8, text "CERT")

-- One packet has all the octets, and another one none.
abbrev pub packet : Bytes → NameParts → ℕ → ℕ → ℕ → Data
packet b n i freshness content_type = record {
  name = n ++ (50, i ∷ []) ∷ [];
  content = b;
  freshness = freshness;
  content_type = content_type;
}

abbrev pub packets : Bytes → NameParts → ℕ → ℕ → List Data
packets b n f t = packet b n 0 f t ∷ packet [] n 1 f t ∷ []

pub packets-ne-nil : (b : Bytes) (n : NameParts) (f t : ℕ) → packets b n f t ≢ []
packets-ne-nil b n f t e = cc

abbrev pub signed : Certificate → Interest → Interest
signed c i = record i { name = i.name ++ (2, c.public_key) ∷ []; signature = some c.public_key }

abbrev pub is_signed_by : Option Bytes → Bytes → Bool
is_signed_by none key = false
is_signed_by (some s) key = bytes_beq s key

abbrev pub first_text : List Bytes → Option Bytes
first_text [] = none
first_text (s ∷ rest) = some s

abbrev pub is_empty : List Bytes → Bool
is_empty [] = true
is_empty (s ∷ rest) = false

-- The prefix of two certificates' identities.
abbrev pub named : Bytes → Certificate
named s = record { identity = (8, s) ∷ []; public_key = s }

-- A tree is a list of texts, which is written as a sequence of values.
abbrev value_of : Bytes → Field
value_of s = (0, s)

abbrev pub written : List Bytes → Option Bytes
written j = some (frames (map value_of j))

abbrev texts : List Field → List Bytes
texts es = map (λ e. e.1) es

abbrev pub read_back : Bytes → Option (List Bytes)
read_back b = elim (unframes b) [ none ↦ none | some es ↦ some (texts es) ]

texts_lem : (j : List Bytes) → texts (map value_of j) ≡ j
texts_lem [] = refl
texts_lem (s ∷ j) = ap (λ l. s ∷ l) (texts_lem j)

pub read_back-written : (j : List Bytes) (s : Bytes) → written j ≡ some s → read_back s ≡ some j
read_back-written j s h =
    let q : frames (map value_of j) ≡ s = ground arith in
    rw (← q) (rw (read_back, unframes-frames (map value_of j)) (ap some (texts_lem j)))

instance abbrev pub toy_security : Security
toy_security = record {
  Certificate = Certificate;
  cert_name = λ c. (c.identity ++ key_part ∷ []) ++ cert_part ∷ [];
  key_name = λ c. c.identity ++ key_part ∷ [];
  identity = λ c. c.identity;
  public_key = λ c. c.public_key;
  is_valid_key_name = λ n. true;
  identity_from_key_name = λ n. some (without_last n);
  key_name_from_cert_name = λ n. some (without_last n);
  identity_from_cert_name = λ n. some (without_last (without_last n));
  is_valid_key_name-key_name = λ c. refl;
  identity_from_key_name-key_name = λ c. ap some (without_last-append c.identity key_part);
  key_name_from_cert_name-cert_name =
      λ c. ap some (without_last-append (c.identity ++ key_part ∷ []) cert_part);
  identity_from_cert_name-cert_name = λ c.
      ap (λ n. some (without_last n)) (without_last-append (c.identity ++ key_part ∷ []) cert_part)
      ∙ ap some (without_last-append c.identity key_part);
  certificate_from_data =
      λ d. some (record { identity = without_last (without_last d.name); public_key = d.content });
  sign_interest = signed;
  components-sign_interest = λ c i. ((2, c.public_key), refl);
  verify_signature = λ i c. is_signed_by i.signature c.public_key;
  verify_signature-sign_interest = λ c i. bytes_beq_refl c.public_key c.public_key refl;
  segment = λ b n m f t. packets b n f t;
  segment-ne-nil = λ b n m f t. packets-ne-nil b n f t;
  segment_names = λ b n m f t. ((0, refl), ((1, refl), tt));
  segment_contents = λ b n m f t. append-nil b;
  JsonSection = List Bytes;
  is_empty = is_empty;
  get_child = λ k j. some j;
  children = λ j. concat_map (λ s. (s ∷ []) ∷ []) j;
  get_string = λ k j. first_text j;
  write_json = written;
  read_json = read_back;
  read_json-write_json = read_back-written;
  load_certificate = λ s. if bytes_beq s [] then none else some (named s);
}
