-- ===== src/Algo/Keys.antt =====
-- algo/public-params, algo/master-key and algo/private-key: OpenABE's texts and their transport as
-- buffers that end with a NUL.
use nac_abe.Common.{Bytes, ◌≡◌, true, [], ◌∷◌, ◌++◌}
use nac_abe.Common.Text.{c_string, has_no_nul, c_string-append}
use nac_abe.Common.Result.{Result, ok, undefined, or_throw, ◌>>=◌}

pub record PublicParams : Type 0 where
  pub m_pub : Bytes

pub record MasterKey : Type 0 where
  pub m_msk : Bytes

pub record PrivateKey : Type 0 where
  pub m_prv : Bytes

abbrev pub no_params : PublicParams
no_params = record { m_pub = [] }

abbrev pub no_key : PrivateKey
no_key = record { m_prv = [] }

-- `Buffer(c_str(), c_str() + size() + 1)`: the text and its final NUL.
unfoldable pub params_to_buffer : PublicParams → Bytes
params_to_buffer p = p.m_pub ++ 0 ∷ []

unfoldable pub params_from_buffer : Bytes → Result PublicParams
params_from_buffer buffer = do s ← or_throw undefined (c_string buffer); ok (record { m_pub = s })

unfoldable pub key_to_buffer : PrivateKey → Bytes
key_to_buffer k = k.m_prv ++ 0 ∷ []

unfoldable pub key_from_buffer : Bytes → Result PrivateKey
key_from_buffer buffer = do s ← or_throw undefined (c_string buffer); ok (record { m_prv = s })

-- Public parameters whose text has no NUL are read back from their buffer.
pub params_from_buffer-to_buffer :
    (p : PublicParams) → has_no_nul p.m_pub ≡ true → params_from_buffer (params_to_buffer p) ≡ ok p
unfolding params_from_buffer params_to_buffer
params_from_buffer-to_buffer p h = rw (c_string-append p.m_pub [] h)

-- A private key whose text has no NUL is read back from its buffer.
pub key_from_buffer-to_buffer :
    (k : PrivateKey) → has_no_nul k.m_prv ≡ true → key_from_buffer (key_to_buffer k) ≡ ok k
unfolding key_from_buffer key_to_buffer
key_from_buffer-to_buffer k h = rw (c_string-append k.m_prv [] h)
