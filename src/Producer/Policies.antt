-- ===== src/Producer/Policies.antt =====
-- producer.cpp: the policies and the attributes by data prefix. The two tables have the same code.
pub mod Longest
pub mod Adding
use nac_abe.Common.{ℕ, Bytes, Bool, ◌&&◌, List, [], ◌∷◌, ltb, ◌==◌, if◌then◌else◌}
use nac_abe.Ndn.{Ndn, name_eq}

module _ ⦃ndn : Ndn⦄ where
  open ndn use {Name, is_prefix_of, size}

  -- An entry of that prefix is overwritten where it stands, a new one goes to the end.
  unfoldable pub add_entry : {V : Type 0} → Name → V → List (Name × V) → List (Name × V)
  add_entry prefix v [] = (prefix, v) ∷ []
  add_entry prefix v ((p, w) ∷ rest) =
      if p == prefix then (p, v) ∷ rest else (p, w) ∷ add_entry prefix v rest

  -- The loop: `index` and `longest` are what the entries before have left.
  unfoldable pub match_entries : {V : Type 0} → Name → List (Name × V) → V → ℕ → V
  match_entries data_name [] index longest = index
  match_entries data_name ((prefix, v) ∷ rest) index longest =
      let better = is_prefix_of prefix data_name && ltb longest (size prefix) in
      match_entries data_name rest (if better then v else index)
        (if better then size prefix else longest)

  abbrev pub PolicyTable : Type 0
  PolicyTable = List (Name × Bytes)

  abbrev pub AttributeTable : Type 0
  AttributeTable = List (Name × List Bytes)

  unfoldable pub add_new_policy : Name → Bytes → PolicyTable → PolicyTable
  unfolding add_entry
  add_new_policy data_prefix policy table = add_entry data_prefix policy table

  unfoldable pub add_new_attributes : Name → List Bytes → AttributeTable → AttributeTable
  unfolding add_entry
  add_new_attributes data_prefix attributes table = add_entry data_prefix attributes table

  unfoldable pub find_matched_policy : Name → PolicyTable → Bytes
  unfolding match_entries
  find_matched_policy data_name table = match_entries data_name table [] 0

  unfoldable pub find_matched_attributes : Name → AttributeTable → List Bytes
  unfolding match_entries
  find_matched_attributes data_name table = match_entries data_name table [] 0
