-- ===== src/Producer/Policies/Adding.antt =====
-- producer.cpp: `addNewPolicy`, and the search after it.
use mathlib.Core.Path.{subst}
use nac_abe.Common.{
  ◌≤◌, ◌<◌, Bytes, ◌≡◌, ◌≢◌, refl, sym, ap, ◌∙◌, true, false, inl, inr, List, [], ◌∷◌, All, Member,
  append_cancel, arith, Bool-cases, ◌==◌,
}
use nac_abe.Ndn.{Ndn, name_eq}
use nac_abe.Producer.Policies.{add_entry, PolicyTable, add_new_policy, find_matched_policy}
use nac_abe.Producer.Policies.Longest.{NoneLonger, find_matched_policy-IsLongest}

module _ ⦃ndn : Ndn⦄ where
  open ndn use {Name, is_prefix_of, size, components}

  -- No prefix has two entries.
  abbrev pub IsDistinct : {V : Type 0} → List (Name × V) → Type 0
  IsDistinct [] = Unit
  IsDistinct ((p, v) ∷ rest) = All (λ e. (p == e.0) ≡ false) rest × IsDistinct rest

  All-add :
      {V : Type 0} (P : Name × V → Type 0) (p : Name) (v : V) (table : List (Name × V))
      → P (p, v)
      → All P table
      → All P (add_entry p v table)
  unfolding add_entry
  All-add P p v [] h hs = (h, tt)
  All-add P p v ((q, w) ∷ rest) h hs = elim (Bool-cases (q == p)) [
    | inl e ↦ rw e (subst (λ n. P (n, v)) (sym ((ndn.name_beq_iff q p).0 e)) h, hs.1)
    | inr e ↦ rw e (hs.0, All-add P p v rest h hs.1)
  ]

  -- Adding keeps one entry for each prefix.
  pub add_entry-IsDistinct :
      {V : Type 0} (p : Name) (v : V) (table : List (Name × V))
      → IsDistinct table
      → IsDistinct (add_entry p v table)
  unfolding add_entry
  add_entry-IsDistinct p v [] h = (tt, tt)
  add_entry-IsDistinct p v ((q, w) ∷ rest) h = elim (Bool-cases (q == p)) [
    | inl e ↦ rw e h
    | inr e ↦
        rw e (All-add (λ e'. (q == e'.0) ≡ false) p v rest e h.0, add_entry-IsDistinct p v rest h.1)
  ]

  Member-add :
      {V : Type 0} (p : Name) (v : V) (table : List (Name × V))
      → Member (p, v) (add_entry p v table)
  unfolding add_entry
  Member-add p v [] = inl refl
  Member-add p v ((q, w) ∷ rest) = elim (Bool-cases (q == p)) [
    | inl e ↦ rw e (inl (ap (λ n. (n, v)) (sym ((ndn.name_beq_iff q p).0 e))))
    | inr e ↦ rw e (inr (Member-add p v rest))
  ]

  All-Member :
      {V : Type 0} (P : Name × V → Type 0) (e : Name × V) (table : List (Name × V))
      → All P table
      → Member e table
      → P e
  All-Member P e (x ∷ rest) h (inl q) = subst P (sym q) h.0
  All-Member P e (x ∷ rest) h (inr m) = All-Member P e rest h.1 m
  All-Member P e [] h m = elim m [ ]

  other :
      {V : Type 0} (p : Name) (w : V) (q : Name) (rest : List (Name × V))
      → All (λ e. (q == e.0) ≡ false) rest
      → Member (p, w) rest
      → p ≢ q
  other p w q rest h m e =
      ground (arith, All-Member (λ e'. (q == e'.0) ≡ false) (p, w) rest h m, ndn.name_beq_iff q p)

  one_entry :
      {V : Type 0} (p : Name) (v w : V) (table : List (Name × V))
      → IsDistinct table
      → Member (p, v) table
      → Member (p, w) table
      → v ≡ w
  one_entry p v w [] d m m' = elim m [ ]
  one_entry p v w ((q, u) ∷ rest) d (inl e) (inl e') = ap (λ t. t.1) (e ∙ sym e')
  one_entry p v w ((q, u) ∷ rest) d (inl e) (inr m') =
      absurd (other p w q rest d.0 m' (ap (λ t. t.0) e))
  one_entry p v w ((q, u) ∷ rest) d (inr m) (inl e') =
      absurd (other p v q rest d.0 m (ap (λ t. t.0) e'))
  one_entry p v w ((q, u) ∷ rest) d (inr m) (inr m') = one_entry p v w rest d.1 m m'

  -- Two prefixes of one name that are as long as each other are the same name.
  same_prefix :
      (p q n : Name) → is_prefix_of p n ≡ true → is_prefix_of q n ≡ true → size p ≡ size q → p ≡ q
  same_prefix p q n hp hq l =
      let (cs, e) = (ndn.is_prefix_of_iff p n).0 hp in
      let (bs, e') = (ndn.is_prefix_of_iff q n).0 hq in
      ndn.components_injective p q (
        append_cancel (components p) (components q) cs bs
          (sym (ndn.size_lem p) ∙ l ∙ ndn.size_lem q) (sym e ∙ e'))

  -- After a policy has been added for a prefix that is not empty, it is the policy of every name
  -- under the prefix, unless the table has a longer prefix of that name.
  pub find_matched_policy-add_new_policy :
      (p n : Name) (policy : Bytes) (table : PolicyTable)
      → IsDistinct table
      → is_prefix_of p n ≡ true
      → 0 < size p
      → NoneLonger n (size p) table
      → find_matched_policy n (add_new_policy p policy table) ≡ policy
  unfolding add_new_policy
  find_matched_policy-add_new_policy p n policy table d i l longest =
      elim (find_matched_policy-IsLongest n (add_entry p policy table)) [
        | inl (none, e) ↦ absurd (
            omega (
              arith,
              All-Member (λ e'. is_prefix_of e'.0 n ≡ true → size e'.0 ≤ 0) (p, policy)
                  (add_entry p policy table) none (Member-add p policy table) i,
            ))
        | inr (q, m, i', l', longest') ↦
            let below : size q ≤ size p =
              All-Member (λ e'. is_prefix_of e'.0 n ≡ true → size e'.0 ≤ size p) (q, _)
                (add_entry p policy table)
                (All-add (λ e'. is_prefix_of e'.0 n ≡ true → size e'.0 ≤ size p) p policy table
                  (λ _. omega arith) longest)
                m i' in
            let above : size p ≤ size q =
              All-Member (λ e'. is_prefix_of e'.0 n ≡ true → size e'.0 ≤ size q) (p, policy)
                (add_entry p policy table) longest' (Member-add p policy table) i in
            one_entry p _ policy (add_entry p policy table) (add_entry-IsDistinct p policy table d)
              (subst
                (λ x.
                  Member (x, find_matched_policy n (add_entry p policy table))
                    (add_entry p policy table))
                (same_prefix q p n i' i (omega arith)) m)
              (Member-add p policy table)
      ]
