-- ===== src/Table/SidValidate/Families.antt =====
-- What HasMixedSegmentTypes of pkg/table/sid_validate.go decides.
use pce_testing.Base.{◌≡◌, ◌↔◌, inl, inr, refl, true, List, [], ◌∷◌, In}
use pce_testing.Table.Segment.{
  Segment, SegmentSrv6, SegmentSrMpls, srv6, srmpls, foreign, absent, unknown_family, srv6_family,
  srmpls_family,
}
use pce_testing.Table.SidValidate.{mixed_from, has_mixed_segment_types}

abbrev pub Srv6In : List Segment → Type 0
Srv6In segs = (s : SegmentSrv6) × In (srv6 s) segs

abbrev pub SrMplsIn : List Segment → Type 0
SrMplsIn segs = (s : SegmentSrMpls) × In (srmpls s) segs

later :
    {A : Type 0} (f : A → Segment) (seg : Segment) (segs : List Segment)
    → (s : A) × In (f s) segs
    → (s : A) × In (f s) (seg ∷ segs)
later f seg segs (s, i) = (s, inr i)

from_srv6 : (segs : List Segment) → mixed_from srv6_family segs ≡ true → SrMplsIn segs
unfolding mixed_from
from_srv6 [] h = absurd (cc)
from_srv6 (srv6 a ∷ segs) h = later srmpls (srv6 a) segs (from_srv6 segs h)
from_srv6 (srmpls a ∷ segs) h = (a, inl refl)
from_srv6 (foreign n ∷ segs) h = later srmpls (foreign n) segs (from_srv6 segs h)
from_srv6 (absent ∷ segs) h = later srmpls absent segs (from_srv6 segs h)

from_srmpls : (segs : List Segment) → mixed_from srmpls_family segs ≡ true → Srv6In segs
unfolding mixed_from
from_srmpls [] h = absurd (cc)
from_srmpls (srmpls a ∷ segs) h = later srv6 (srmpls a) segs (from_srmpls segs h)
from_srmpls (srv6 a ∷ segs) h = (a, inl refl)
from_srmpls (foreign n ∷ segs) h = later srv6 (foreign n) segs (from_srmpls segs h)
from_srmpls (absent ∷ segs) h = later srv6 absent segs (from_srmpls segs h)

to_srv6 :
    (segs : List Segment) (s : SegmentSrMpls)
    → In (srmpls s) segs
    → mixed_from srv6_family segs ≡ true
unfolding mixed_from
to_srv6 [] s i = absurd i
to_srv6 (srv6 a ∷ segs) s i = elim i [ inl here ↦ absurd (cc) | inr there ↦ to_srv6 segs s there ]
to_srv6 (srmpls a ∷ segs) s i = refl
to_srv6 (foreign n ∷ segs) s i = elim i [
  | inl here ↦ absurd (cc)
  | inr there ↦ to_srv6 segs s there
]
to_srv6 (absent ∷ segs) s i = elim i [ inl here ↦ absurd (cc) | inr there ↦ to_srv6 segs s there ]

to_srmpls :
    (segs : List Segment) (s : SegmentSrv6)
    → In (srv6 s) segs
    → mixed_from srmpls_family segs ≡ true
unfolding mixed_from
to_srmpls [] s i = absurd i
to_srmpls (srmpls a ∷ segs) s i = elim i [
  | inl here ↦ absurd (cc)
  | inr there ↦ to_srmpls segs s there
]
to_srmpls (srv6 a ∷ segs) s i = refl
to_srmpls (foreign n ∷ segs) s i = elim i [
  | inl here ↦ absurd (cc)
  | inr there ↦ to_srmpls segs s there
]
to_srmpls (absent ∷ segs) s i = elim i [
  | inl here ↦ absurd (cc)
  | inr there ↦ to_srmpls segs s there
]

both : (segs : List Segment) → mixed_from unknown_family segs ≡ true → Srv6In segs × SrMplsIn segs
unfolding mixed_from
both [] h = absurd (cc)
both (srv6 a ∷ segs) h = ((a, inl refl), later srmpls (srv6 a) segs (from_srv6 segs h))
both (srmpls a ∷ segs) h = (later srv6 (srmpls a) segs (from_srmpls segs h), (a, inl refl))
both (foreign n ∷ segs) h =
    let (p, q) = both segs h in (later srv6 (foreign n) segs p, later srmpls (foreign n) segs q)
both (absent ∷ segs) h =
    let (p, q) = both segs h in (later srv6 absent segs p, later srmpls absent segs q)

mixed : (segs : List Segment) → Srv6In segs × SrMplsIn segs → mixed_from unknown_family segs ≡ true
unfolding mixed_from
mixed [] ((s, i), q) = absurd i
mixed (srv6 a ∷ segs) (p, (s, i)) = elim i [
  | inl here ↦ absurd (cc)
  | inr there ↦ to_srv6 segs s there
]
mixed (srmpls a ∷ segs) ((s, i), q) = elim i [
  | inl here ↦ absurd (cc)
  | inr there ↦ to_srmpls segs s there
]
mixed (foreign n ∷ segs) ((s, i), (t, j)) = elim i [
  | inl here ↦ absurd (cc)
  | inr there ↦ elim j [ inl here ↦ absurd (cc) | inr other ↦ mixed segs ((s, there), (t, other)) ]
]
mixed (absent ∷ segs) ((s, i), (t, j)) = elim i [
  | inl here ↦ absurd (cc)
  | inr there ↦ elim j [ inl here ↦ absurd (cc) | inr other ↦ mixed segs ((s, there), (t, other)) ]
]

-- `HasMixedSegmentTypes` holds of a list exactly when it has both an SRv6 and an SR-MPLS segment,
-- whatever else stands between them.
pub has_mixed_segment_types_iff :
    (segs : List Segment) → (has_mixed_segment_types segs ≡ true) ↔ (Srv6In segs × SrMplsIn segs)
unfolding has_mixed_segment_types
has_mixed_segment_types_iff segs = (both segs, mixed segs)
