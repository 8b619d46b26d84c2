-- ===== src/Tests/Labels.antt =====
-- Segment lists against the labels of a database.
use pce_testing.Base.{ℕ, ◌+◌, ◌≡◌, ◌↔◌, refl, true, false, List, [], ◌∷◌, some, In, get_elem?}
use pce_testing.Net.{v6}
use pce_testing.Table.Segment.{
  Segment, srv6, srmpls, foreign, absent, new_segment_srv6, new_segment_srmpls,
}
use pce_testing.Table.SidValidate.{
  has_unknown_segment_type, has, new_sid_index, missing_segments, has_mixed_segment_types,
  has_unknown_segment_type, out_of_range_srmpls_labels,
}
use pce_testing.Table.SidValidate.Labels.{Advertises}
use pce_testing.Table.SidValidate.Known.{has_srmpls_iff}
use pce_testing.Table.SidValidate.Missing.{missing_segments_iff}
use pce_testing.Table.SidValidate.Families.{Srv6In, SrMplsIn, has_mixed_segment_types_iff}
use pce_testing.Tests.Paths.{sample}

abbrev two_kinds : List Segment
two_kinds =
    srmpls (new_segment_srmpls 16066) ∷ absent ∷ srv6 (new_segment_srv6 (v6 (32 ∷ 1 ∷ []) [])) ∷ []

-- A nil segment is passed over, but a value of another type has not.
nil_is_known : has_unknown_segment_type (absent ∷ []) ≡ false
unfolding has_unknown_segment_type
nil_is_known = refl

foreign_is_unknown : has_unknown_segment_type (absent ∷ foreign [] ∷ []) ≡ true
unfolding has_unknown_segment_type
foreign_is_unknown = refl

known : has (new_sid_index (some sample)) (srmpls (new_segment_srmpls 16066)) ≡ true
unfolding has new_sid_index sample new_segment_srmpls
known = refl

unknown : has (new_sid_index (some sample)) (srmpls (new_segment_srmpls 16099)) ≡ false
unfolding has new_sid_index sample new_segment_srmpls
unknown = refl

two_missing :
    missing_segments (some sample) two_kinds
    ≡ record { hop = 2; sid = absent }
      ∷ record { hop = 3; sid = srv6 (new_segment_srv6 (v6 (32 ∷ 1 ∷ []) [])) }
      ∷ []
unfolding missing_segments sample new_segment_srmpls new_segment_srv6
two_missing = refl

too_large :
    out_of_range_srmpls_labels (srmpls (new_segment_srmpls 1048576) ∷ [])
    ≡ record { hop = 1; sid = srmpls (new_segment_srmpls 1048576) } ∷ []
unfolding out_of_range_srmpls_labels new_segment_srmpls
too_large = refl

no_unknown_type : has_unknown_segment_type two_kinds ≡ false
unfolding has_unknown_segment_type
no_unknown_type = refl

has_srmpls_iff_example :
    (has (new_sid_index (some sample)) (srmpls (new_segment_srmpls 16066)) ≡ true)
    ↔ Advertises sample 16066
unfolding new_segment_srmpls
has_srmpls_iff_example = has_srmpls_iff sample (new_segment_srmpls 16066)

missing_segments_iff_example :
    In (record { hop = 2; sid = absent }) (missing_segments (some sample) two_kinds) ↔ (
      (i : ℕ) × (2 ≡ i + 1)
      × (get_elem? two_kinds i ≡ some absent)
      × (has (new_sid_index (some sample)) absent ≡ false))
missing_segments_iff_example =
    missing_segments_iff (some sample) two_kinds (record { hop = 2; sid = absent })

has_mixed_segment_types_iff_example :
    (has_mixed_segment_types two_kinds ≡ true) ↔ (Srv6In two_kinds × SrMplsIn two_kinds)
has_mixed_segment_types_iff_example = has_mixed_segment_types_iff two_kinds
