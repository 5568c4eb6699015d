-- ===== src/Common/Result.antt =====
-- C++ exceptions as values, and methods that throw after they have changed their object.
use native.Mathlib.Omega.{arith}
use mathlib.Core.Path.{◌≡◌, refl}
use mathlib.Core.Logic.{◌⊎◌, inl, inr}
use mathlib.Core.Option.{Option, none, some}
use nac_abe.Common.Text.{Bytes, text}

-- What an operation of the program may end with. `nac_algo_error` and `runtime_error` carry the
-- message; the next are the libraries' own; `undefined` is undefined behaviour.
pub data Exception : Type 0 where
  nac_algo_error : Bytes → Exception
  runtime_error : Bytes → Exception
  crypto_box_error transform_error tlv_error name_error out_of_range invalid_argument bad_path
        json_parser_error pib_error undefined :
      Exception

pub data Result {ℓ} (A : Type ℓ) : Type ℓ where
  ok : A → Result A
  err : Exception → Result A

-- A library call that throws `e` where the parameter returns `none`.
abbrev pub or_throw {ℓ} : {A : Type ℓ} → Exception → Option A → Result A
or_throw e none = err e
or_throw e (some a) = ok a

infixl 5 ◌>>=◌ ◌>>◌
abbrev pub ◌>>=◌ {ℓ μ} : {A : Type ℓ} {C : Type μ} → Result A → (A → Result C) → Result C
err x >>= next = err x
ok a >>= next = next a

abbrev pub ◌>>◌ {ℓ μ} : {A : Type ℓ} {C : Type μ} → Result A → Result C → Result C
first >> second = first >>= λ _. second

-- `e.what()`, as an error callback receives it. The libraries' texts are not part of the model.
abbrev pub what : Exception → Bytes
what (nac_algo_error m) = m
what (runtime_error m) = m
what crypto_box_error = text "crypto box"
what transform_error = text "transform"
what tlv_error = text "tlv"
what name_error = text "name"
what out_of_range = text "out_of_range"
what invalid_argument = text "invalid_argument"
what bad_path = text "bad path"
what json_parser_error = text "json parser"
what pib_error = text "pib"
what undefined = text "undefined"

-- What a call that returned was given.
pub or_throw-eq-ok {ℓ} :
    {A : Type ℓ} {a : A} (e : Exception) (o : Option A) → or_throw e o ≡ ok a → o ≡ some a
or_throw-eq-ok e none h = cc
or_throw-eq-ok e (some b) h = ground arith

pub >>=-eq-ok {ℓ μ} :
    {A : Type ℓ} {C : Type μ} (first : Result A) (next : A → Result C) {c : C}
    → (first >>= next) ≡ ok c
    → (a : A) × (first ≡ ok a) × (next a ≡ ok c)
>>=-eq-ok (err x) next h = cc
>>=-eq-ok (ok a) next h = (a, refl, h)

-- A call returned or threw.
pub Result-cases {ℓ} :
    {A : Type ℓ} (r : Result A) → ((a : A) × (r ≡ ok a)) ⊎ ((e : Exception) × (r ≡ err e))
Result-cases (ok a) = inl (a, refl)
Result-cases (err e) = inr (e, refl)
