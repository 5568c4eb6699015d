-- ===== src/Common/Map.antt =====
-- `std::map`, `std::unordered_map` and `std::unordered_set` as association lists. The program never
-- iterates over one, so the order of the entries is not modelled.
use mathlib.Core.Path.{◌≡◌, ap, ◌∙◌}
use mathlib.Core.Bool.{false}
use mathlib.Core.Option.{Option, none, some}
use mathlib.Core.List.{List, [], ◌∷◌}
use native.Mathlib.Omega.{arith}
use nac_abe.Common.Tests.{Eq, beq_refl, ◌==◌, if◌then◌else◌, is_some}

abbrev pub Map {ℓ κ} : Type ℓ → Type κ → Type (ℓ ⊔ κ)
Map K V = List (K × V)

module _ {ℓ κ} {K : Type ℓ} {V : Type κ} ⦃e : Eq K⦄ where
  unfoldable pub find : K → Map K V → Option V
  find k [] = none
  find k ((j, v) ∷ m) = if j == k then some v else find k m

  -- `m.erase(k)`
  unfoldable pub erase : K → Map K V → Map K V
  erase k [] = []
  erase k ((j, v) ∷ m) = let rest = erase k m in if j == k then rest else (j, v) ∷ rest

  -- `m[k] = v`
  unfoldable pub put : K → V → Map K V → Map K V
  unfolding erase
  put k v m = (k, v) ∷ erase k m

  -- `m.insert({k, v})` and `m.emplace(k, v)`: an entry that is there stays.
  unfoldable pub insert : K → V → Map K V → Map K V
  unfolding find
  insert k v m = if is_some (find k m) then m else (k, v) ∷ m

  pub find-erase :
      (k j : K) (m : Map K V) → find j (erase k m) ≡ (if k == j then none else find j m)
  unfolding find erase
  find-erase k j [] = ground arith
  find-erase k j ((i, v) ∷ m) =
      ground (arith, find-erase k j m, e.beq_iff i k, e.beq_iff i j, e.beq_iff k j)

  pub find-put :
      (k j : K) (v : V) (m : Map K V) → find j (put k v m) ≡ (if k == j then some v else find j m)
  unfolding find put
  find-put k j v m = ground (arith, find-erase k j m)

  pub find-insert :
      (k j : K) (v : V) (m : Map K V)
      → find j (insert k v m)
        ≡ (if k == j then (if is_some (find k m) then find k m else some v) else find j m)
  unfolding find insert
  find-insert k j v m = ground (arith, e.beq_iff k j)

  pub find-erase_self : (k : K) (m : Map K V) → find k (erase k m) ≡ none
  find-erase_self k m = find-erase k k m ∙ ap (λ b. if b then none else find k m) (beq_refl k)

  pub find-erase_ne : (k j : K) (m : Map K V) → (k == j) ≡ false → find j (erase k m) ≡ find j m
  find-erase_ne k j m h = find-erase k j m ∙ ap (λ b. if b then none else find j m) h

  pub find-put_self : (k : K) (v : V) (m : Map K V) → find k (put k v m) ≡ some v
  find-put_self k v m = find-put k k v m ∙ ap (λ b. if b then some v else find k m) (beq_refl k)

  pub find-put_ne :
      (k j : K) (v : V) (m : Map K V) → (k == j) ≡ false → find j (put k v m) ≡ find j m
  find-put_ne k j v m h = find-put k j v m ∙ ap (λ b. if b then some v else find j m) h

  pub find-insert_self :
      (k : K) (v : V) (m : Map K V) → find k m ≡ none → find k (insert k v m) ≡ some v
  find-insert_self k v m h = ground (arith, find-insert k k v m, e.beq_iff k k)

  pub find-insert_ne :
      (k j : K) (v : V) (m : Map K V) → (k == j) ≡ false → find j (insert k v m) ≡ find j m
  find-insert_ne k j v m h = ground (arith, find-insert k j v m)
