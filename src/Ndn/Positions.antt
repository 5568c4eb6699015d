-- ===== src/Ndn/Positions.antt =====
-- Where a component stands that has been put behind a name.
use nac_abe.Common.{ℕ, suc, ◌+◌, ◌≡◌, ap, ◌∙◌, List, [], ◌∷◌, ◌++◌, length, get_elem?, arith}
use nac_abe.Ndn.{Ndn}

module _ ⦃ndn : Ndn⦄ where
  open ndn use {Name, Component, components, at, size}

  unit_sum : (i : ℕ) → 0 + i ≡ i
  unit_sum i = omega arith

  suc_sum : (n i : ℕ) → suc n + i ≡ suc (n + i)
  suc_sum n i = omega arith

  behind : (cs ds : List Component) (i : ℕ) → get_elem? (cs ++ ds) (length cs + i) ≡ get_elem? ds i
  behind [] ds i = ap (get_elem? ds) (unit_sum i)
  behind (c ∷ cs) ds i = ap (get_elem? (c ∷ cs ++ ds)) (suc_sum (length cs) i) ∙ behind cs ds i

  pub at_behind :
      (n m : Name) (ds : List Component) (i : ℕ)
      → components n ≡ components m ++ ds
      → at n (size m + i) ≡ get_elem? ds i
  at_behind n m ds i e =
      ndn.at_lem n (size m + i)
      ∙ ap (λ cs. get_elem? cs (size m + i)) e
      ∙ ap (λ k. get_elem? (components m ++ ds) (k + i)) (ndn.size_lem m)
      ∙ behind (components m) ds i
