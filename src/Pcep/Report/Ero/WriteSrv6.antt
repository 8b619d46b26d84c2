-- ===== src/Pcep/Report/Ero/WriteSrv6.antt =====
-- Making and writing the SRv6-ERO subobject of pkg/packet/pcep/object.go.
use pce_testing.Base.{
  ℕ, ◌*◌, Bool, true, false, not, List, [], ◌∷◌, ◌++◌, Option, none, some, Result, ok, err, panic,
  stuck, ◌>>=◌, if◌then◌else◌,
}
use pce_testing.Base.Bytes.{u8, put16}
use pce_testing.Net.{Addr, is_valid, as_slice}
use pce_testing.Table.Segment.{SegmentSrv6, behavior}
use pce_testing.Pcep.Wire.{append_byte_slices, set_bit}
use pce_testing.Pcep.Report.Ero.{Srv6EroSubobject}
use pce_testing.Pcep.Report.Ero.Decode.{EroError, len_srv6_ero}

abbrev pub has_structure : Option (List ℕ) → Bool
has_structure none = false
has_structure (some s) = true

abbrev pub srv6_nai_type : Addr → Addr → ℕ
srv6_nai_type l r = if is_valid l then (if is_valid r then 4 else 2) else 0

-- The subobject of a segment, with a length.
abbrev pub srv6_ero_of : SegmentSrv6 → ℕ → Srv6EroSubobject
srv6_ero_of seg n = record {
  l_flag = false;
  subobject_type = 0x28;
  length = n;
  nai_type = srv6_nai_type seg.local_addr seg.remote_addr;
  v_flag = false;
  t_flag = has_structure seg.structure;
  f_flag = not (is_valid seg.local_addr);
  s_flag = false;
  segment = seg;
}

unfoldable pub new_srv6_ero_subobject : SegmentSrv6 → Result EroError Srv6EroSubobject
unfolding len_srv6_ero
new_srv6_ero_subobject seg = len_srv6_ero (srv6_ero_of seg 0) >>= λ n. ok (srv6_ero_of seg (u8 n))

-- The SID structure and four reserved bytes.
abbrev pub structure_bytes : Option (List ℕ) → List ℕ
structure_bytes none = []
structure_bytes (some s) = s ++ (0 ∷ 0 ∷ 0 ∷ 0 ∷ [])

abbrev pub remote_bytes : Addr → List ℕ
remote_bytes r = if is_valid r then as_slice r else []

-- The parts of a subobject, behind each other, with the endpoint behaviour.
abbrev pub srv6_ero_parts : Srv6EroSubobject → ℕ → List (List ℕ)
srv6_ero_parts o b =
    (set_bit o.subobject_type 0x80 o.l_flag
      ∷ o.length
      ∷ u8 (o.nai_type * 16)
      ∷ set_bit (set_bit (set_bit (set_bit 0 8 o.v_flag) 4 o.t_flag) 2 o.f_flag) 1 o.s_flag
      ∷ [])
    ∷ (0 ∷ 0 ∷ [])
    ∷ put16 b
    ∷ as_slice o.segment.sid
    ∷ (as_slice o.segment.local_addr ++ remote_bytes o.segment.remote_addr)
    ∷ structure_bytes o.segment.structure
    ∷ []

unfoldable pub serialize_srv6_ero : Srv6EroSubobject → Result EroError (List ℕ)
unfolding behavior append_byte_slices put16 set_bit
serialize_srv6_ero o = elim (behavior o.segment) [
  | ok b ↦ ok (append_byte_slices (srv6_ero_parts o b))
  | err e ↦ err EroError.segment_without_behavior
  | panic ↦ panic
  | stuck ↦ stuck
]
