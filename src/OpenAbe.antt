-- ===== src/OpenAbe.antt =====
-- OpenABE as the code uses it: a parameter of the development. `none` stands for a thrown
-- `oabe::ZCryptoBoxException`. Randomness is an argument.
use nac_abe.Common.{
  ℕ, Bytes, ◌≡◌, ◌≢◌, Bool, true, false, Option, none, some, ◌<◌, ◌≤◌, ◌+◌, ◌^◌, length,
}
use nac_abe.Common.Text.{has_no_nul}

pub record OpenAbe : Type 1 where
  -- OpenABECryptoContext(scheme)
  pub Context : Type 0
  pub context : Bytes → Context
  pub generate_params : ℕ → Context → Option Context
  pub export_public_params : Context → Bytes
  pub export_secret_params : Context → Bytes
  pub import_public_params : Bytes → Context → Option Context
  pub import_secret_params : Bytes → Context → Option Context
  -- keygen(input, id)
  pub keygen : Bytes → Bytes → ℕ → Context → Option Context
  pub export_user_key : Bytes → Context → Option Bytes
  pub delete_key : Bytes → Context → Option Context
  pub encrypt : Bytes → Bytes → ℕ → Context → Option Bytes
  pub enable_key_manager : Bytes → Context → Option Context
  pub import_user_key : Bytes → Bytes → Context → Option Context
  -- `some none` is a call that returns false
  pub decrypt : Bytes → Context → Option (Option Bytes)
  -- OpenABESymKey, of DEFAULT_SYM_KEY_BYTES
  pub generate_symmetric_key : ℕ → Bytes
  -- OpenABESymKeyEnc(key)
  pub sym_encrypt : Bytes → Bytes → ℕ → Option Bytes
  pub sym_decrypt : Bytes → Bytes → Option Bytes

infixl 5 ◌>>=◌
abbrev pub ◌>>=◌ {ℓ κ} : {A : Type ℓ} {B : Type κ} → Option A → (A → Option B) → Option B
none >>= f = none
some a >>= f = f a

-- What a party does with the library, from a fresh context: the terms in which its guarantees are
-- documented.
module _ ⦃abe : OpenAbe⦄ where
  -- the public and the secret parameters of a new authority
  unfoldable pub setup : Bytes → ℕ → Option (Bytes × Bytes)
  setup scheme r = do
    c ← abe.generate_params r (abe.context scheme)
    some (abe.export_public_params c, abe.export_secret_params c)

  -- the user key that the authority issues for a policy or for attributes
  unfoldable pub issue : Bytes → Bytes → Bytes → Bytes → Bytes → ℕ → Option Bytes
  issue scheme mpk msk id input r = do
    c ← abe.import_public_params mpk (abe.context scheme)
    c' ← abe.import_secret_params msk c
    c'' ← abe.keygen input id r c'
    key ← abe.export_user_key id c''
    _ ← abe.delete_key id c''
    some key

  unfoldable pub seal : Bytes → Bytes → Bytes → Bytes → ℕ → Option Bytes
  seal scheme mpk input plain r = do
    c ← abe.import_public_params mpk (abe.context scheme)
    abe.encrypt input plain r c

  unfoldable pub unseal : Bytes → Bytes → Bytes → Bytes → Bytes → Bytes → Option (Option Bytes)
  unseal scheme mpk user id key sealed = do
    c ← abe.import_public_params mpk (abe.context scheme)
    c' ← abe.enable_key_manager user c
    c'' ← abe.import_user_key id key c'
    abe.decrypt sealed c''

-- The documented guarantees: who may decrypt, and that outputs are texts (base64).
pub record IsSecure ⦃abe : OpenAbe⦄ : Type 0 where
  -- scheme, what the key was issued for, what the text was sealed for
  pub satisfies : Bytes → Bytes → Bytes → Bool
  pub unseal-seal :
      (scheme : Bytes) (r r' r'' : ℕ)
      (mpk msk id key_input key user key_id input plain sealed : Bytes)
      → setup scheme r ≡ some (mpk, msk)
      → issue scheme mpk msk id key_input r' ≡ some key
      → seal scheme mpk input plain r'' ≡ some sealed
      → satisfies scheme key_input input ≡ true
      → unseal scheme mpk user key_id key sealed ≡ some (some plain)
  pub unseal_refused :
      (scheme : Bytes) (r r' r'' : ℕ)
      (mpk msk id key_input key user key_id input plain sealed : Bytes)
      → setup scheme r ≡ some (mpk, msk)
      → issue scheme mpk msk id key_input r' ≡ some key
      → seal scheme mpk input plain r'' ≡ some sealed
      → satisfies scheme key_input input ≡ false
      → (leaked : Bytes) → unseal scheme mpk user key_id key sealed ≢ some (some leaked)
  pub sealed_text :
      (scheme mpk input plain : Bytes) (r : ℕ) (sealed : Bytes)
      → seal scheme mpk input plain r ≡ some sealed
      → has_no_nul sealed ≡ true
  pub sym_decrypt-sym_encrypt :
      (key plain : Bytes) (r : ℕ) (sealed : Bytes)
      → abe.sym_encrypt key plain r ≡ some sealed
      → abe.sym_decrypt key sealed ≡ some plain
  pub sym_text :
      (key plain : Bytes) (r : ℕ) (sealed : Bytes)
      → abe.sym_encrypt key plain r ≡ some sealed
      → has_no_nul sealed ≡ true

-- Sizes: the sealed content keys, and the texts of plaintexts up to a limit, have a size that a
-- `uint32_t` holds together with a NUL.
pub record OutputsFit ⦃abe : OpenAbe⦄ (limit : ℕ) : Type 0 where
  pub limit_fits : limit < 2 ^ 32
  pub seal_fits :
      (scheme mpk input : Bytes) (r r' : ℕ) (sealed : Bytes)
      → seal scheme mpk input (abe.generate_symmetric_key r) r' ≡ some sealed
      → length sealed + 1 < 2 ^ 32
  pub sym_fits :
      (key plain : Bytes) (r : ℕ) (sealed : Bytes)
      → length plain ≤ limit
      → abe.sym_encrypt key plain r ≡ some sealed
      → length sealed + 1 < 2 ^ 32
