-- ===== src/Common/Text.antt =====
-- `std::string`, `Buffer` and spans of octets: lists of numbers.
use Prim.Native.Char.{code}
use Prim.Native.String.{String}
use Prim.Native.Nat.{ℕ, zero, suc}
use mathlib.Core.Path.{◌≡◌, refl}
use mathlib.Core.Logic.{◌↔◌, ◌≢◌}
use mathlib.Core.Bool.{Bool, true, false, not, ◌&&◌}
use mathlib.Core.Option.{Option, none, some}
use mathlib.Core.List.{List, [], ◌∷◌, ◌++◌}
use native.Mathlib.Omega.{arith}
use nac_abe.Common.Tests.{nat_beq, Eq}

abbrev pub Bytes : Type 0
Bytes = List ℕ

-- The octets of a text constant (all of the source's are ASCII).
abbrev pub text : String → Bytes
text String.[] = []
text (String.◌∷◌ c s) = code c ∷ text s

abbrev pub bytes_beq : Bytes → Bytes → Bool
bytes_beq [] [] = true
bytes_beq (x ∷ xs) (y ∷ ys) = nat_beq x y && bytes_beq xs ys
bytes_beq _ _ = false

pub bytes_beq_sound : (xs ys : Bytes) → bytes_beq xs ys ≡ true → xs ≡ ys
bytes_beq_sound [] [] h = refl
bytes_beq_sound [] (y ∷ ys) h = cc
bytes_beq_sound (x ∷ xs) [] h = cc
bytes_beq_sound (x ∷ xs) (y ∷ ys) h = ground (arith, bytes_beq_sound xs ys)

pub bytes_beq_refl : (xs ys : Bytes) → xs ≡ ys → bytes_beq xs ys ≡ true
bytes_beq_refl [] [] h = refl
bytes_beq_refl [] (y ∷ ys) h = cc
bytes_beq_refl (x ∷ xs) [] h = cc
bytes_beq_refl (x ∷ xs) (y ∷ ys) h = ground (arith, bytes_beq_refl xs ys)

pub bytes_beq_iff : (xs ys : Bytes) → (bytes_beq xs ys ≡ true) ↔ (xs ≡ ys)
bytes_beq_iff xs ys = (bytes_beq_sound xs ys, bytes_beq_refl xs ys)

instance abbrev pub bytes_eq : Eq Bytes
bytes_eq = record { beq = bytes_beq; beq_iff = bytes_beq_iff }

abbrev pub has_no_nul : Bytes → Bool
has_no_nul [] = true
has_no_nul (c ∷ s) = not (nat_beq c 0) && has_no_nul s

-- `std::string((char*) buffer.data())`: what stands before the first NUL. Without one the read
-- runs past the buffer, which is undefined behaviour (`none`).
unfoldable pub c_string : Bytes → Option Bytes
c_string [] = none
c_string (zero ∷ s) = some []
c_string (suc c ∷ s) = elim (c_string s) [ none ↦ none | some r ↦ some (suc c ∷ r) ]

-- A text with its NUL is read back up to its own first NUL, the rest of the buffer ignored.
pub c_string-append : (s rest : Bytes) → has_no_nul s ≡ true → c_string (s ++ 0 ∷ rest) ≡ some s
unfolding c_string
c_string-append [] rest h = refl
c_string-append (zero ∷ s) rest h = cc
c_string-append (suc c ∷ s) rest h = rw (c_string-append s rest (ground arith))

-- `s.c_str()` read as a text.
unfoldable pub until_nul : Bytes → Bytes
until_nul [] = []
until_nul (zero ∷ s) = []
until_nul (suc c ∷ s) = suc c ∷ until_nul s

pub ne_of_beq : (xs ys : Bytes) → bytes_beq xs ys ≡ false → xs ≢ ys
ne_of_beq xs ys h e = ground (arith, bytes_beq_iff xs ys)
