-- ===== src/Tests/Wire.antt =====
-- Lengths and segments.
use pce_testing.Base.{ℕ, ◌+◌, ◌%◌, ◌<◌, ◌≤◌, ◌≡◌, ◌↔◌, true, false, List, [], ◌∷◌, some, ok, arith}
use pce_testing.Net.{v4, invalid}
use pce_testing.Pcep.Wire.{decode_tlv_length, padded_length}
use pce_testing.Pcep.Wire.Padding.{padded_length_least}
use pce_testing.Pcep.Wire.Frame.{decode_tlv_length_iff, FitsFrame, header_length}
use pce_testing.Table.Segment.{Segment, srmpls, segments_equal}
use pce_testing.Table.Segment.Equality.{segments_equal_iff, SameHop}

padded_length_least_example :
    (padded_length 13 4 % 4 ≡ 0) × (13 ≤ padded_length 13 4) × (padded_length 13 4 < 13 + 4)
padded_length_least_example = padded_length_least 13 4 (omega arith)

abbrev color_tlv : List ℕ
color_tlv = 0 ∷ 67 ∷ 0 ∷ 4 ∷ 0 ∷ 0 ∷ 0 ∷ 7 ∷ []

decode_tlv_length_iff_example :
    (decode_tlv_length color_tlv false ≡ ok 4)
    ↔ ((header_length color_tlv ≡ some 4) × FitsFrame color_tlv false 4)
decode_tlv_length_iff_example = decode_tlv_length_iff color_tlv false 4

abbrev label : Segment
label = srmpls (record {
  sid = 16001;
  ttl = 0;
  tc = 0;
  s = false;
  local_addr = v4 (10 ∷ 0 ∷ 0 ∷ 1 ∷ []);
  remote_addr = invalid;
})

abbrev same_label : Segment
same_label = srmpls (record {
  sid = 16001;
  ttl = 64;
  tc = 0;
  s = true;
  local_addr = invalid;
  remote_addr = invalid;
})

segments_equal_iff_example : (segments_equal label same_label ≡ true) ↔ SameHop label same_label
segments_equal_iff_example = segments_equal_iff label same_label
