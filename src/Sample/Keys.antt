-- ===== src/Sample/Keys.antt =====
-- Toy AES, RSA and TPM: a ciphertext shows its key, and a private key is its own public key.
use nac_abe.Common.{sym, Bytes, ◌≡◌, ap, some, [], ◌∷◌, bytes_beq_iff, arith}
use nac_abe.NdnCrypto.{Crypto}
use nac_abe.Sample.Codec.{frames, unframes, unframes-frames}
use nac_abe.Sample.Abe.{sym_fields}
use nac_abe.Sample.Names.{toy_ndn}
use nac_abe.Sample.Certificates.{toy_security}
use mathlib.Core.Option.{some-injective}

abbrev pub locked : Bytes → Bytes → Bytes
locked key payload = frames ((0, key) ∷ (0, payload) ∷ [])

pub unlocked : (key payload : Bytes) → sym_fields key (unframes (locked key payload)) ≡ some payload
unlocked key payload =
    rw (unframes-frames ((0, key) ∷ (0, payload) ∷ [])) (ground (arith, bytes_beq_iff key key))

pub opens :
    (key payload sealed : Bytes)
    → some (locked key payload) ≡ some sealed
    → sym_fields key (unframes sealed) ≡ some payload
opens key payload sealed e =
    rw (sym (some-injective (locked key payload) sealed e)) (unlocked key payload)

pub opens_with :
    (private_key public_key payload sealed : Bytes)
    → private_key ≡ public_key
    → some (locked public_key payload) ≡ some sealed
    → sym_fields private_key (unframes sealed) ≡ some payload
opens_with private_key public_key payload sealed q e = rw q (opens public_key payload sealed e)

instance abbrev pub toy_crypto : Crypto
toy_crypto = record {
  random_bytes = λ seed n. some (seed ∷ n ∷ []);
  default_key_size = 128;
  cbc_encrypt = λ key iv payload. some (locked key payload);
  cbc_decrypt = λ key iv sealed. sym_fields key (unframes sealed);
  cbc_decrypt-cbc_encrypt = λ key iv payload sealed. opens key payload sealed;
  generate_private_key = λ seed n. some (seed ∷ n ∷ []);
  derive_public_key = λ key. some key;
  public_encrypt = λ key payload r. some (locked key payload);
  private_decrypt = λ key sealed. sym_fields key (unframes sealed);
  private_decrypt-public_encrypt = λ private_key public_key payload sealed r e.
      opens_with private_key public_key payload sealed (some-injective private_key public_key e);
  Tpm = Bytes;
  tpm_key = λ tpm n. some tpm;
  tpm_decrypt = λ tpm sealed n. sym_fields tpm (unframes sealed);
  tpm_decrypt_lem = λ tpm n private_key sealed e.
      ap (λ k. sym_fields k (unframes sealed)) (some-injective tpm private_key e);
}
