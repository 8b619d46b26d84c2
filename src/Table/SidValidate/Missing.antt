-- ===== src/Table/SidValidate/Missing.antt =====
-- Which segments MissingSegments of pkg/table/sid_validate.go reports.
use mathlib.Core.Path.{subst}
use pce_testing.Base.{
  ℕ, zero, suc, ◌+◌, ◌≡◌, ◌↔◌, inl, inr, refl, sym, ap, ◌∙◌, true, false, List, [], ◌∷◌, Option,
  some, arith, Bool-cases, In, get_elem?, some_inj,
}
use pce_testing.Table.Segment.{Segment}
use pce_testing.Table.Ted.{Ted}
use pce_testing.Table.SidValidate.{
  SidIndex, MissingSegment, new_sid_index, has, missing_from, missing_segments,
}

-- The report is of a place of the list, counted from the hop after `before`, whose segment the index
-- does not have.
abbrev IsMissingFrom : SidIndex → ℕ → List Segment → MissingSegment → Type 0
IsMissingFrom idx before segs m =
    (i : ℕ) × (m.hop ≡ before + i + 1) × (get_elem? segs i ≡ some m.sid) × (has idx m.sid ≡ false)

missing_first :
    (idx : SidIndex) (b : ℕ) (seg : Segment) (segs : List Segment)
    → has idx seg ≡ false
    → missing_from idx b (seg ∷ segs)
      ≡ record { hop = b + 1; sid = seg } ∷ missing_from idx (b + 1) segs
unfolding missing_from
missing_first idx b seg segs h = rw h refl

missing_later :
    (idx : SidIndex) (b : ℕ) (seg : Segment) (segs : List Segment)
    → has idx seg ≡ true
    → missing_from idx b (seg ∷ segs) ≡ missing_from idx (b + 1) segs
unfolding missing_from
missing_later idx b seg segs h = rw h refl

missing_nil : (idx : SidIndex) (b : ℕ) → missing_from idx b [] ≡ []
unfolding missing_from
missing_nil idx b = refl

further :
    (idx : SidIndex) (b : ℕ) (seg : Segment) (segs : List Segment) (m : MissingSegment)
    → IsMissingFrom idx (b + 1) segs m
    → IsMissingFrom idx b (seg ∷ segs) m
further idx b seg segs m (i, h, e, n) = (suc i, omega arith, e, n)

missing-In :
    (idx : SidIndex) (b : ℕ) (segs : List Segment) (m : MissingSegment)
    → In m (missing_from idx b segs)
    → IsMissingFrom idx b segs m
missing-In idx b [] m i = absurd (subst (In m) (missing_nil idx b) i)
missing-In idx b (seg ∷ segs) m i = elim (Bool-cases (has idx seg)) [
  | inl h ↦
      further idx b seg segs m
        (missing-In idx (b + 1) segs m (subst (In m) (missing_later idx b seg segs h) i))
  | inr h ↦ elim (subst (In m) (missing_first idx b seg segs h) i) [
    | inl here ↦
        let at : b + 1 ≡ m.hop = ap (λ k. k.hop) here in
        let is : seg ≡ m.sid = ap (λ k. k.sid) here in
        (0, omega arith, ap some is, ap (has idx) (sym is) ∙ h)
    | inr there ↦ further idx b seg segs m (missing-In idx (b + 1) segs m there)
  ]
]

In-missing :
    (idx : SidIndex) (b : ℕ) (segs : List Segment) (m : MissingSegment)
    → IsMissingFrom idx b segs m
    → In m (missing_from idx b segs)
In-missing idx b [] m (i, h, e, n) = absurd (cc)
In-missing idx b (seg ∷ segs) m (zero, h, e, n) =
    let is : seg ≡ m.sid = some_inj e in
    let at : b + 1 ≡ m.hop = omega arith in
    subst (In m) (sym (missing_first idx b seg segs (ap (has idx) is ∙ n)))
      (inl (λ k. record { hop = at k; sid = is k }))
In-missing idx b (seg ∷ segs) m (suc i, h, e, n) =
    let rest = In-missing idx (b + 1) segs m (i, omega arith, e, n) in
    elim (Bool-cases (has idx seg)) [
      | inl h ↦ subst (In m) (sym (missing_later idx b seg segs h)) rest
      | inr h ↦ subst (In m) (sym (missing_first idx b seg segs h)) (inr rest)
    ]

-- `MissingSegments` reports a hop and a segment exactly when the segment stands at that place of the
-- list, counted from 1, and the index of the database does not have it.
pub missing_segments_iff :
    (ted : Option Ted) (segs : List Segment) (m : MissingSegment)
    → In m (missing_segments ted segs) ↔ (
        (i : ℕ) × (m.hop ≡ i + 1)
        × (get_elem? segs i ≡ some m.sid)
        × (has (new_sid_index ted) m.sid ≡ false))
unfolding missing_segments
missing_segments_iff ted segs m = (
  λ i. let (j, h, e, n) = missing-In (new_sid_index ted) 0 segs m i in (j, omega arith, e, n),
  λ found.
      let (j, h, e, n) = found in In-missing (new_sid_index ted) 0 segs m (j, omega arith, e, n),
)
