-- ===== src/Producer/Policies/Longest.antt =====
-- producer.cpp: the searches of `findMatchedPolicy` and `findMatchedAttributes`.
use mathlib.Core.Path.{subst}
use nac_abe.Common.{
  sym, ℕ, ◌≤◌, ◌<◌, ◌≡◌, refl, Bool, true, false, ◌&&◌, ◌⊎◌, inl, inr, List, [], ◌∷◌, All, Member,
  ltb, arith, Bool-cases,
}
use nac_abe.Ndn.{Ndn, name_eq}
use nac_abe.Producer.Policies.{
  match_entries, PolicyTable, AttributeTable, find_matched_policy, find_matched_attributes,
}

module _ ⦃ndn : Ndn⦄ where
  open ndn use {Name, is_prefix_of, size}

  -- No entry that matches is longer.
  abbrev pub NoneLonger : {V : Type 0} → Name → ℕ → List (Name × V) → Type 0
  NoneLonger n k table = All (λ e. is_prefix_of e.0 n ≡ true → size e.0 ≤ k) table

  abbrev pub IsLongest : {V : Type 0} → Name → ℕ → V → List (Name × V) → V → Type 0
  IsLongest {V} n k index table found =
      (NoneLonger n k table × (found ≡ index))
      ⊎ ((p : Name) × Member (p, found) table
          × (is_prefix_of p n ≡ true)
          × (k < size p)
          × NoneLonger n (size p) table)

  NoneLonger-mono :
      {V : Type 0} (n : Name) (j k : ℕ) (table : List (Name × V))
      → j ≤ k
      → NoneLonger n j table
      → NoneLonger n k table
  NoneLonger-mono n j k [] l h = tt
  NoneLonger-mono n j k (e ∷ rest) l h =
      (λ m. omega (arith, h.0 m), NoneLonger-mono n j k rest l h.1)

  module _ {V : Type 0} (n p : Name) (v : V) (rest : List (Name × V)) (index : V) (k : ℕ) where
    abbrev better : Bool
    better = is_prefix_of p n && ltb k (size p)

    taken :
        (found : V)
        → better ≡ true
        → IsLongest n (size p) v rest found
        → IsLongest n k index ((p, v) ∷ rest) found
    taken found b (inl (none, e)) =
        inr (p, inl (rw e), ground arith, ground arith, (λ _. omega arith, none))
    taken found b (inr (q, m, i, l, none)) =
        inr (q, inr m, i, ground arith, (λ _. omega arith, none))

    passed :
        (found : V)
        → better ≡ false
        → IsLongest n k index rest found
        → IsLongest n k index ((p, v) ∷ rest) found
    passed found b (inl (none, e)) = inl ((λ i. ground arith, none), e)
    passed found b (inr (q, m, i, l, none)) = inr (q, inr m, i, l, (λ h. ground arith, none))

    taken_value :
        better ≡ true → match_entries n ((p, v) ∷ rest) index k ≡ match_entries n rest v (size p)
    unfolding match_entries
    taken_value b = rw b

    passed_value :
        better ≡ false → match_entries n ((p, v) ∷ rest) index k ≡ match_entries n rest index k
    unfolding match_entries
    passed_value b = rw b

  match_entries-IsLongest :
      {V : Type 0} (n : Name) (table : List (Name × V)) (index : V) (k : ℕ)
      → IsLongest n k index table (match_entries n table index k)
  match_entries-IsLongest n [] index k = inl (tt, unfold match_entries in refl)
  match_entries-IsLongest n ((p, v) ∷ rest) index k =
      elim (Bool-cases (is_prefix_of p n && ltb k (size p))) [
        | inl b ↦
            subst (IsLongest n k index ((p, v) ∷ rest)) (sym (taken_value n p v rest index k b))
              (taken n p v rest index k _ b (match_entries-IsLongest n rest v (size p)))
        | inr b ↦
            subst (IsLongest n k index ((p, v) ∷ rest)) (sym (passed_value n p v rest index k b))
              (passed n p v rest index k _ b (match_entries-IsLongest n rest index k))
      ]

  -- The policy for a data name is that of a longest entry among those whose prefix is not empty and
  -- is a prefix of the name; where there is no such entry it is the empty policy.
  pub find_matched_policy-IsLongest :
      (n : Name) (table : PolicyTable) → IsLongest n 0 [] table (find_matched_policy n table)
  unfolding find_matched_policy
  find_matched_policy-IsLongest n table = match_entries-IsLongest n table [] 0

  -- The attributes for a data name are those of a longest entry among those whose prefix is not
  -- empty and is a prefix of the name; where there is no such entry they are none.
  pub find_matched_attributes-IsLongest :
      (n : Name) (table : AttributeTable) → IsLongest n 0 [] table (find_matched_attributes n table)
  unfolding find_matched_attributes
  find_matched_attributes-IsLongest n table = match_entries-IsLongest n table [] 0
