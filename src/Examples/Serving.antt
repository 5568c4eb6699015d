-- ===== src/Examples/Serving.antt =====
-- examples/kp-producer-example.cpp: which segments are put for an Interest.
use nac_abe.Common.{
  ℕ, ◌≡◌, ◌≢◌, refl, sym, ap, ◌∙◌, true, false, ◌⊎◌, inl, inr, ◌||◌, List, [], ◌∷◌, All, Member,
  arith, Bool-cases, ◌==◌, if◌then◌else◌, length, length-append,
}
use nac_abe.Ndn.{Ndn, name_eq}
use nac_abe.Packets.{Interest, Data}
use nac_abe.Security.{Security}
use nac_abe.AttributeAuthority.Request.{first_packet}
use nac_abe.Examples.Programs.{put_segments}

module _ ⦃ndn : Ndn⦄ ⦃sec : Security⦄ where
  open ndn use {Name, append, drop_last}

  -- The names of the packets are those of segments of the object.
  abbrev pub Named : Name → List Data → Type 0
  Named object ds = All (λ d. (k : ℕ) × (d.name ≡ append object (ndn.segment k))) ds

  segment-ne : (object : Name) (k : ℕ) → append object (ndn.segment k) ≢ object
  segment-ne object k h = absurd (
      omega (
        arith,
        ap length (sym (ndn.components-append object (ndn.segment k)) ∙ ap ndn.components h),
        length-append (ndn.components object) (ndn.segment k ∷ []),
      ))

  step_lem :
      (object : Name) (k : ℕ) (i : Interest) (d : Data) (ds : List Data)
      → d.name ≡ append object (ndn.segment k)
      → put_segments i (d ∷ ds) ≡ (
          if (i.name == d.name) || (if i.name == object then i.can_be_prefix else false)
          then d ∷ []
          else put_segments i ds)
  unfolding put_segments
  step_lem object k i d ds e =
      rw (ap drop_last e ∙ ndn.drop_last-append object (ndn.segment k)) refl

  -- What an Interest has of the segments of one object.
  pub data Served (object : Name) (i : Interest) (ds : List Data) : List Data → Type 0 where
    probed : i.name ≡ object → i.can_be_prefix ≡ true → Served object i ds (first_packet ds)
    exact : (d : Data) → i.name ≡ d.name → Member d ds → Served object i ds (d ∷ [])
    unserved :
        ((i.name ≢ object) ⊎ (i.can_be_prefix ≡ false))
        → ((d : Data) → Member d ds → i.name ≢ d.name)
        → Served object i ds []

  no_probe :
      (object : Name) (i : Interest)
      → (i.name ≢ object) ⊎ (i.can_be_prefix ≡ false)
      → (if i.name == object then i.can_be_prefix else false) ≡ false
  no_probe object i h = ground (arith, ndn.name_beq_iff i.name object)

  abbrev Searched : Interest → List Data → List Data → Type 0
  Searched i ds r =
      ((d : Data) × (r ≡ d ∷ []) × (i.name ≡ d.name) × Member d ds)
      ⊎ ((r ≡ []) × ((d : Data) → Member d ds → i.name ≢ d.name))

  searched :
      (object : Name) (i : Interest) (ds : List Data)
      → (if i.name == object then i.can_be_prefix else false) ≡ false
      → Named object ds
      → Searched i ds (put_segments i ds)
  searched object i [] h n = inr (unfold put_segments in refl, λ d m. absurd m)
  searched object i (d ∷ ds) h ((k, e), n) = elim (Bool-cases (i.name == d.name)) [
    | inl q ↦
        inl (
          d,
          step_lem object k i d ds e ∙ rw q refl,
          (ndn.name_beq_iff i.name d.name).0 q,
          inl refl,
        )
    | inr q ↦ elim (searched object i ds h n) [
      | inl (d', r, s, m) ↦ inl (d', step_lem object k i d ds e ∙ rw (q, h) r, s, inr m)
      | inr (r, none_has) ↦ inr (
        step_lem object k i d ds e ∙ rw (q, h) r,
        λ d' m. elim m [ inl same ↦ λ s. other d d' q same s | inr m' ↦ none_has d' m' ],
      )
    ]
  ]
    where
      other : (d d' : Data) → (i.name == d.name) ≡ false → d' ≡ d → i.name ≡ d'.name → ⊥
      other d d' q same s =
          absurd (ground (arith, ndn.name_beq_iff i.name d.name, ap (λ (x : Data). x.name) same))

  pub probe_first :
      (object : Name) (i : Interest) (ds : List Data)
      → (if i.name == object then i.can_be_prefix else false) ≡ true
      → Named object ds
      → put_segments i ds ≡ first_packet ds
  probe_first object i [] h n = unfold put_segments in refl
  probe_first object i (d ∷ ds) h ((k, e), n) = step_lem object k i d ds e ∙ rw h (ground arith)

  found :
      (object : Name) (i : Interest) (ds r : List Data)
      → (i.name ≢ object) ⊎ (i.can_be_prefix ≡ false)
      → Searched i ds r
      → Served object i ds r
  found object i ds r h (inl (d, q, s, m)) = rw q (exact d s m)
  found object i ds r h (inr (q, none_has)) = rw q (unserved h none_has)

  -- The producer puts at most one of the segments of an object for an Interest: the first, where the
  -- Interest has the object's name and may be a prefix; else a segment that has the Interest's name;
  -- and none where no segment has it.
  pub put_segments-Served :
      (object : Name) (i : Interest) (ds : List Data)
      → Named object ds
      → Served object i ds (put_segments i ds)
  put_segments-Served object i ds n = elim (Bool-cases (i.name == object)) [
    | inr q ↦
        found object i ds _ (inl (λ e. ground (arith, ndn.name_beq_iff i.name object)))
          (searched object i ds (rw q refl) n)
    | inl q ↦ elim (Bool-cases i.can_be_prefix) [
      | inr p ↦ found object i ds _ (inr p) (searched object i ds (rw q p) n)
      | inl p ↦
          rw (probe_first object i ds (rw q p) n) (probed ((ndn.name_beq_iff i.name object).0 q) p)
    ]
  ]
