-- ===== src/Producer/Decimal.antt =====
-- `std::to_string` of an unsigned number.
use Prim.Native.Nat.{◌/◌}
use native.Mathlib.Nat.{pow-suc}
use nac_abe.Common.{
  ap, ◌∙◌, ℕ, zero, suc, ◌+◌, ◌-◌, ◌*◌, ◌%◌, ◌^◌, ◌<◌, Bytes, ◌≡◌, [], ◌∷◌, ltb, if◌then◌else◌,
  arith, Bool-cases, inl, inr,
}

-- `acc` holds the digits that are done. A 32-bit word has ten digits at most.
unfoldable pub digits : ℕ → ℕ → Bytes → Bytes
digits zero n acc = acc
digits (suc fuel) n acc =
    let rest = digits fuel (n / 10) ((b'0' + n % 10) ∷ acc) in
    if ltb n 10 then (b'0' + n) ∷ acc else rest

unfoldable pub to_string : ℕ → Bytes
unfolding digits
to_string n = digits 10 n []

-- The number that a text of digits stands for, read from the left.
abbrev pub number_from : ℕ → Bytes → ℕ
number_from acc [] = acc
number_from acc (c ∷ s) = number_from (acc * 10 + (c - b'0')) s

number-digits :
    (fuel n : ℕ) (acc : Bytes)
    → n < 10 ^ fuel
    → number_from 0 (digits fuel n acc) ≡ number_from n acc
unfolding digits
number-digits zero n acc h = ap (λ t. number_from t acc) (omega arith)
number-digits (suc fuel) n acc h = elim (Bool-cases (ltb n 10)) [
  | inl e ↦ rw e (ap (λ t. number_from t acc) (omega arith))
  | inr e ↦ rw e (
      number-digits fuel (n / 10) ((b'0' + n % 10) ∷ acc) (omega (arith, pow-suc 10 fuel))
      ∙ ap (λ t. number_from t acc) (omega arith))
]

-- The text of a number below ten to the tenth, which every 32-bit word is, reads back as it.
pub number-to_string : (n : ℕ) → n < 10 ^ 10 → number_from 0 (to_string n) ≡ n
unfolding to_string
number-to_string n h = number-digits 10 n [] h
