-- ===== src/Pcep/Report/Ero/Write.antt =====
-- Making and writing the SR-ERO subobject of pkg/packet/pcep/object.go.
use Prim.Native.Nat.{bit_and, bit_or}
use pce_testing.Base.{
  ℕ, ◌*◌, Bool, true, false, not, ◌&&◌, ◌||◌, List, [], ◌∷◌, ◌++◌, Result, ok, err, ◌>>=◌, ◌>>◌,
  guard, ◌==◌, if◌then◌else◌,
}
use pce_testing.Base.Bytes.{u8, u32, put32}
use pce_testing.Net.{Addr, is_valid, is4, is6, as_slice, unmap, is_link_local_unicast}
use pce_testing.Table.Segment.{SegmentSrMpls, has_mpls_stack_entry_attrs}
use pce_testing.Pcep.Wire.{append_byte_slices}
use pce_testing.Pcep.Report.Ero.{SrEroSubobject}
use pce_testing.Pcep.Report.Ero.Decode.{EroError, len_sr_ero}

-- `naiTypeSRFor`, of the unmapped addresses.
unfoldable pub nai_type_between : Addr → Addr → Result EroError ℕ
unfolding is_link_local_unicast
nai_type_between l r =
    if not (is_valid l)
    then (if is_valid r then err EroError.remote_without_local else ok 0)
    else if not (is_valid r)
    then (if is4 l then ok 1 else ok 2)
    else if (is4 l && not (is4 r)) || (not (is4 l) && is4 r)
    then err EroError.mixed_families
    else if is4 l
    then ok 3
    else if is_link_local_unicast l || is_link_local_unicast r
    then err EroError.link_local_adjacency
    else ok 4

unfoldable pub nai_type_sr_for : SegmentSrMpls → Result EroError ℕ
unfolding nai_type_between unmap
nai_type_sr_for seg = nai_type_between (unmap seg.local_addr) (unmap seg.remote_addr)

-- The subobject of a segment, with a NAI type and a length.
abbrev pub sr_ero_of : SegmentSrMpls → ℕ → ℕ → SrEroSubobject
sr_ero_of seg t n = record {
  l_flag = false;
  subobject_type = 0x24;
  length = n;
  nai_type = t;
  f_flag = t == 0;
  s_flag = false;
  c_flag = has_mpls_stack_entry_attrs seg;
  m_flag = true;
  segment = seg;
}

unfoldable pub new_sr_ero_subobject : SegmentSrMpls → Result EroError SrEroSubobject
unfolding nai_type_sr_for len_sr_ero has_mpls_stack_entry_attrs
new_sr_ero_subobject seg =
    nai_type_sr_for seg >>= λ t. len_sr_ero (sr_ero_of seg t 0) >>= λ n. ok (sr_ero_of seg t (u8 n))

-- The switch of `serializeNAI`, on the unmapped addresses.
unfoldable pub nai_bytes : ℕ → Addr → Addr → Result EroError (List ℕ)
nai_bytes t l r =
    if t == 0
    then ok []
    else if t == 1
    then (guard (is4 l) EroError.address_not_of_nai_type >> ok (as_slice l))
    else if t == 2
    then (guard (is6 l) EroError.address_not_of_nai_type >> ok (as_slice l))
    else if t == 3
    then (guard (is4 l && is4 r) EroError.address_not_of_nai_type >> ok (as_slice l ++ as_slice r))
    else if t == 4
    then (guard (is6 l && is6 r) EroError.address_not_of_nai_type >> ok (as_slice l ++ as_slice r))
    else err EroError.unsupported_nai_type

unfoldable pub serialize_nai : SrEroSubobject → Result EroError (List ℕ)
unfolding nai_bytes unmap
serialize_nai o =
    if o.f_flag
    then ok []
    else nai_bytes o.nai_type (unmap o.segment.local_addr) (unmap o.segment.remote_addr)

-- `if flag { b |= mask }`.
abbrev pub with_flag : ℕ → ℕ → Bool → ℕ
with_flag b mask flag = if flag then bit_or b mask else b

unfoldable pub sid_word : SegmentSrMpls → Bool → ℕ
sid_word seg c_flag =
    let w = u32 (bit_and seg.sid 0xfffff * 4096) in
    if c_flag
    then bit_or (with_flag (bit_or w (u32 (bit_and seg.tc 7 * 512))) 256 seg.s) seg.ttl
    else w

-- The parts of a subobject, behind each other.
abbrev pub sr_ero_parts : SrEroSubobject → List ℕ → List (List ℕ)
sr_ero_parts o nai =
    (with_flag o.subobject_type 0x80 o.l_flag
      ∷ o.length
      ∷ u8 (o.nai_type * 16)
      ∷ with_flag (with_flag (with_flag (with_flag 0 8 o.f_flag) 4 o.s_flag) 2 o.c_flag) 1 o.m_flag
      ∷ [])
    ∷ put32 (sid_word o.segment o.c_flag)
    ∷ nai
    ∷ []

unfoldable pub serialize_sr_ero : SrEroSubobject → Result EroError (List ℕ)
unfolding serialize_nai sid_word append_byte_slices put32
serialize_sr_ero o = serialize_nai o >>= λ nai. ok (append_byte_slices (sr_ero_parts o nai))
