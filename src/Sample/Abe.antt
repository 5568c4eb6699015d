-- ===== src/Sample/Abe.antt =====
-- A toy OpenABE: a ciphertext shows its parameters and what it was sealed for, and opens for a key
-- of the same parameters that was issued for the same text.
use mathlib.Core.Path.{subst}
use nac_abe.Common.{
  sym, ◌≢◌, ℕ, suc, ◌+◌, ◌^◌, ◌<◌, ◌≤◌, Bytes, ◌≡◌, true, false, ◌&&◌, Option, none, some, List, [],
  ◌∷◌, length, ltb, if◌then◌else◌, bytes_beq, bytes_beq_iff, arith,
}
use nac_abe.Common.Text.{has_no_nul}
use nac_abe.OpenAbe.{OpenAbe, IsSecure, OutputsFit, issue, seal, unseal}
use nac_abe.Sample.Codec.{frames, unframes, unframes-frames, frames_text}

pub record Context : Type 0 where
  pub mpk : Bytes
  pub msk : Bytes
  pub key : Bytes

-- An output of more octets than a `uint32_t` counts is an error.
unfoldable pub bounded : Bytes → Option Bytes
bounded b = if ltb (length b + 1) (2 ^ 32) then some b else none

unfoldable pub key_of : Bytes → Bytes → Bytes
key_of mpk input = frames ((0, mpk) ∷ (0, input) ∷ [])

unfoldable pub sealed_of : Bytes → Bytes → Bytes → Bytes
sealed_of mpk input plain = frames ((0, mpk) ∷ (0, input) ∷ (0, plain) ∷ [])

abbrev pub open_fields : Option (List (ℕ × Bytes)) → Option (List (ℕ × Bytes)) → Option Bytes
open_fields (some ((_, mpk) ∷ (_, ki) ∷ [])) (some ((_, mpk') ∷ (_, input) ∷ (_, plain) ∷ [])) =
    if bytes_beq ki input && bytes_beq mpk mpk' then some plain else none
open_fields _ _ = none

abbrev pub sym_fields : Bytes → Option (List (ℕ × Bytes)) → Option Bytes
sym_fields key (some ((_, key') ∷ (_, plain) ∷ [])) =
    if bytes_beq key key' then some plain else none
sym_fields key _ = none

instance abbrev pub toy_abe : OpenAbe
toy_abe = record {
  Context = Context;
  context = λ scheme. record { mpk = []; msk = []; key = [] };
  generate_params = λ r c. some (record c { mpk = suc r ∷ []; msk = suc r ∷ [] });
  export_public_params = λ c. c.mpk;
  export_secret_params = λ c. c.msk;
  import_public_params = λ p c. some (record c { mpk = p });
  import_secret_params = λ p c. some (record c { msk = p });
  keygen = λ input id r c.
      if bytes_beq c.mpk c.msk then some (record c { key = key_of c.mpk input }) else none;
  export_user_key = λ id c. some c.key;
  delete_key = λ id c. some c;
  encrypt = λ input plain r c. bounded (sealed_of c.mpk input plain);
  enable_key_manager = λ user c. some c;
  import_user_key = λ id key c. some (record c { key = key });
  decrypt = λ sealed c. some (open_fields (unframes c.key) (unframes sealed));
  generate_symmetric_key = λ r. suc r ∷ [];
  sym_encrypt = λ key plain r. bounded (frames ((0, key) ∷ (0, plain) ∷ []));
  sym_decrypt = λ key sealed. sym_fields key (unframes sealed);
}

bounded_inverted : (b c : Bytes) → bounded b ≡ some c → (c ≡ b) × (length b + 1 < 2 ^ 32)
unfolding bounded
bounded_inverted b c h = ground arith

issued :
    (scheme mpk msk id input : Bytes) (r : ℕ) (key : Bytes)
    → issue scheme mpk msk id input r ≡ some key
    → key ≡ key_of mpk input
unfolding issue
issued scheme mpk msk id input r key h = ground arith

open_lem :
    (mpk ki input plain : Bytes)
    → open_fields (unframes (key_of mpk ki)) (unframes (sealed_of mpk input plain))
      ≡ (if bytes_beq ki input then some plain else none)
unfolding key_of sealed_of
open_lem mpk ki input plain =
    rw
      (
        unframes-frames ((0, mpk) ∷ (0, ki) ∷ []),
        unframes-frames ((0, mpk) ∷ (0, input) ∷ (0, plain) ∷ []),
      )
      (ground (arith, bytes_beq_iff mpk mpk))

unsealed :
    (scheme mpk msk id ki user kid input plain : Bytes) (r r' : ℕ) (key sealed : Bytes)
    → issue scheme mpk msk id ki r ≡ some key
    → seal scheme mpk input plain r' ≡ some sealed
    → unseal scheme mpk user kid key sealed ≡ some (if bytes_beq ki input then some plain else none)
unfolding seal unseal
unsealed scheme mpk msk id ki user kid input plain r r' key sealed h k = ground (
  arith,
  issued scheme mpk msk id ki r key h,
  bounded_inverted (sealed_of mpk input plain) sealed,
  open_lem mpk ki input plain,
)

pub toy_unseal-seal :
    (scheme mpk msk id ki user kid input plain : Bytes) (r r' : ℕ) (key sealed : Bytes)
    → issue scheme mpk msk id ki r ≡ some key
    → seal scheme mpk input plain r' ≡ some sealed
    → bytes_beq ki input ≡ true
    → unseal scheme mpk user kid key sealed ≡ some (some plain)
toy_unseal-seal scheme mpk msk id ki user kid input plain r r' key sealed i e q =
    ground (arith, unsealed scheme mpk msk id ki user kid input plain r r' key sealed i e)

pub toy_unseal_refused :
    (scheme mpk msk id ki user kid input plain : Bytes) (r r' : ℕ) (key sealed : Bytes)
    → issue scheme mpk msk id ki r ≡ some key
    → seal scheme mpk input plain r' ≡ some sealed
    → bytes_beq ki input ≡ false
    → (leaked : Bytes) → unseal scheme mpk user kid key sealed ≢ some (some leaked)
toy_unseal_refused scheme mpk msk id ki user kid input plain r r' key sealed i e q leaked u =
    ground (arith, unsealed scheme mpk msk id ki user kid input plain r r' key sealed i e)

pub toy_sealed_text :
    (scheme mpk input plain : Bytes) (r : ℕ) (sealed : Bytes)
    → seal scheme mpk input plain r ≡ some sealed
    → has_no_nul sealed ≡ true
unfolding seal
toy_sealed_text scheme mpk input plain r sealed e =
    let (q, _) = bounded_inverted (sealed_of mpk input plain) sealed e in
    subst (λ b. has_no_nul b ≡ true) (sym q)
      (unfold sealed_of in frames_text ((0, mpk) ∷ (0, input) ∷ (0, plain) ∷ []))

pub toy_sym_text :
    (key plain : Bytes) (r : ℕ) (sealed : Bytes)
    → toy_abe.sym_encrypt key plain r ≡ some sealed
    → has_no_nul sealed ≡ true
toy_sym_text key plain r sealed e =
    let (q, _) = bounded_inverted (frames ((0, key) ∷ (0, plain) ∷ [])) sealed e in
    subst (λ b. has_no_nul b ≡ true) (sym q) (frames_text ((0, key) ∷ (0, plain) ∷ []))

pub toy_sym_decrypt-sym_encrypt :
    (key plain : Bytes) (r : ℕ) (sealed : Bytes)
    → toy_abe.sym_encrypt key plain r ≡ some sealed
    → toy_abe.sym_decrypt key sealed ≡ some plain
toy_sym_decrypt-sym_encrypt key plain r sealed e =
    let (q, _) = bounded_inverted (frames ((0, key) ∷ (0, plain) ∷ [])) sealed e in
    rw (q, unframes-frames ((0, key) ∷ (0, plain) ∷ [])) (ground (arith, bytes_beq_iff key key))

unfoldable pub toy_secure : IsSecure
toy_secure = record {
  satisfies = λ scheme ki input. bytes_beq ki input;
  unseal-seal = λ scheme r r' r'' mpk msk id ki key user kid input plain sealed s.
      toy_unseal-seal scheme mpk msk id ki user kid input plain r' r'' key sealed;
  unseal_refused = λ scheme r r' r'' mpk msk id ki key user kid input plain sealed s.
      toy_unseal_refused scheme mpk msk id ki user kid input plain r' r'' key sealed;
  sealed_text = toy_sealed_text;
  sym_decrypt-sym_encrypt = toy_sym_decrypt-sym_encrypt;
  sym_text = toy_sym_text;
}

toy_seal_fits :
    (scheme mpk input : Bytes) (r r' : ℕ) (sealed : Bytes)
    → seal scheme mpk input (toy_abe.generate_symmetric_key r) r' ≡ some sealed
    → length sealed + 1 < 2 ^ 32
unfolding seal
toy_seal_fits scheme mpk input r r' sealed e =
    let (q, l) = bounded_inverted (sealed_of mpk input (suc r ∷ [])) sealed e in
    subst (λ b. length b + 1 < 2 ^ 32) (sym q) l

toy_sym_fits :
    (key plain : Bytes) (r : ℕ) (sealed : Bytes)
    → length plain ≤ 1000
    → toy_abe.sym_encrypt key plain r ≡ some sealed
    → length sealed + 1 < 2 ^ 32
toy_sym_fits key plain r sealed _ e =
    let (q, l) = bounded_inverted (frames ((0, key) ∷ (0, plain) ∷ [])) sealed e in
    subst (λ b. length b + 1 < 2 ^ 32) (sym q) l

pub toy_fits : OutputsFit 1000
toy_fits = record { limit_fits = omega arith; seal_fits = toy_seal_fits; sym_fits = toy_sym_fits }
