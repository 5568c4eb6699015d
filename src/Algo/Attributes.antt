-- ===== src/Algo/Attributes.antt =====
-- algo/abe-support.cpp: the texts that attribute lists become.
use mathlib.Core.List.{append_assoc}
use nac_abe.Common.{ℕ, Bytes, ◌≡◌, refl, sym, ◌∙◌, ap, List, [], ◌∷◌, ◌++◌, arith}
use nac_abe.Common.Result.{ok, err, undefined}
use nac_abe.Algo.Support.{join_bars, pop_back, policy_string}

-- The attributes with a bar between each two.
abbrev pub separated : Bytes → List Bytes → Bytes
separated a [] = a
separated a (b ∷ rest) = a ++ (b'|' ∷ separated b rest)

pop_back-append : (s : Bytes) (c : ℕ) → pop_back (s ++ c ∷ []) ≡ ok s
unfolding pop_back
pop_back-append [] c = refl
pop_back-append (x ∷ []) c = refl
pop_back-append (x ∷ y ∷ s) c = ground (arith, pop_back-append (y ∷ s) c)

join_bars-separated :
    (a : Bytes) (rest : List Bytes) → join_bars (a ∷ rest) ≡ separated a rest ++ b'|' ∷ []
unfolding join_bars
join_bars-separated a [] = refl
join_bars-separated a (b ∷ rest) =
    ap (λ t. a ++ (b'|' ∷ t)) (join_bars-separated b rest)
    ∙ sym (append_assoc a (b'|' ∷ separated b rest) (b'|' ∷ []))

-- The policy string of a list of attributes: they are written with one bar between each two, and
-- the code runs into undefined behaviour on an empty list.
pub policy_string_lem :
    (policy_string [] ≡ err undefined)
    × ((a : Bytes) (rest : List Bytes) → policy_string (a ∷ rest) ≡ ok (separated a rest))
unfolding policy_string
policy_string_lem =
    (refl, λ a rest. rw join_bars-separated (pop_back-append (separated a rest) b'|'))
