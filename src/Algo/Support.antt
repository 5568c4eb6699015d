-- ===== src/Algo/Support.antt =====
-- algo/abe-support.cpp: the public methods of `ABESupport` that leave its state alone.
use nac_abe.Common.{ℕ, Bytes, List, [], ◌∷◌, ◌++◌}
use nac_abe.Common.Result.{Result, ok, err, undefined, ◌>>=◌}
use nac_abe.Constants.{abe_type_cp_abe, abe_type_kp_abe}
use nac_abe.OpenAbe.{OpenAbe}
use nac_abe.Algo.Keys.{PublicParams, MasterKey, PrivateKey}
use nac_abe.Algo.Content.{ContentKey, CipherText}
use nac_abe.Algo.Context.{init, prv_key_gen, content_key_gen, encrypt}

-- `for (it : attrList) policyString += it + "|"`
unfoldable pub join_bars : List Bytes → Bytes
join_bars [] = []
join_bars (a ∷ rest) = a ++ (b'|' ∷ join_bars rest)

-- `std::string::pop_back`, undefined on an empty string.
unfoldable pub pop_back : Bytes → Result Bytes
pop_back [] = err undefined
pop_back (c ∷ []) = ok []
pop_back (c ∷ d ∷ s) = do r ← pop_back (d ∷ s); ok (c ∷ r)

unfoldable pub policy_string : List Bytes → Result Bytes
unfolding join_bars pop_back
policy_string attributes = pop_back (join_bars attributes)

module _ ⦃abe : OpenAbe⦄ where
  unfoldable pub cp_init : ℕ → Result (PublicParams × MasterKey)
  cp_init = init abe_type_cp_abe

  unfoldable pub kp_init : ℕ → Result (PublicParams × MasterKey)
  kp_init = init abe_type_kp_abe

  unfoldable pub cp_prv_key_gen : PublicParams → MasterKey → List Bytes → ℕ → Result PrivateKey
  cp_prv_key_gen params master attributes r = do
    s ← policy_string attributes
    prv_key_gen abe_type_cp_abe params master s r

  unfoldable pub kp_prv_key_gen : PublicParams → MasterKey → Bytes → ℕ → Result PrivateKey
  kp_prv_key_gen params master policy r = prv_key_gen abe_type_kp_abe params master policy r

  unfoldable pub cp_content_key_gen : PublicParams → Bytes → ℕ → ℕ → Result ContentKey
  cp_content_key_gen params policy r r' = content_key_gen abe_type_cp_abe params policy r r'

  unfoldable pub kp_content_key_gen : PublicParams → List Bytes → ℕ → ℕ → Result ContentKey
  kp_content_key_gen params attributes r r' = do
    s ← policy_string attributes
    content_key_gen abe_type_kp_abe params s r r'

  unfoldable pub cp_encrypt : PublicParams → Bytes → Bytes → ℕ → ℕ → ℕ → Result CipherText
  cp_encrypt params policy plaintext r r' r'' = do
    ck ← content_key_gen abe_type_cp_abe params policy r r'
    encrypt ck plaintext r''

  unfoldable pub kp_encrypt : PublicParams → List Bytes → Bytes → ℕ → ℕ → ℕ → Result CipherText
  kp_encrypt params attributes plaintext r r' r'' = do
    s ← policy_string attributes
    ck ← content_key_gen abe_type_kp_abe params s r r'
    encrypt ck plaintext r''
