-- ===== src/Pcep/Report/Ero/Decode.antt =====
-- Decoding the explicit route object of pkg/packet/pcep/object.go and its three subobjects.
use Prim.Native.Nat.{bit_and}
use pce_testing.Base.{
  ℕ, zero, suc, ◌+◌, ◌/◌, Bool, not, ◌&&◌, ◌||◌, List, [], ◌∷◌, some, Result, ok, err, stuck, ◌>>=◌,
  ◌>>◌, guard, ltb, leb, ◌==◌, if◌then◌else◌, length, drop,
}
use pce_testing.Base.Bytes.{index, slice, read16, read32}
use pce_testing.Net.{invalid, v4, addr_from_slice}
use pce_testing.Table.Segment.{SegmentSrv6, SegmentSrMpls, new_segment_srv6, new_segment_srmpls}
use pce_testing.Pcep.Report.Ero.{
  SrEroSubobject, Srv6EroSubobject, RsvpIpv4PrefixEroSubobject, EroSubobject, EroObject, sr_ero,
  srv6_ero, rsvp_ipv4_prefix,
}

pub data EroError : Type 0 where
  subobject_too_short unsupported_nai_type truncated_nai truncated_sid truncated_sid_structure
        invalid_length_field invalid_prefix_length absent_nai invalid_subobject_type
        subobject_parse_error remote_without_local mixed_families link_local_adjacency
        address_not_of_nai_type segment_without_behavior :
      EroError

abbrev pub flag : ℕ → ℕ → Bool
flag b mask = not (bit_and b mask == 0)

unfoldable pub nai_length : ℕ → Result EroError ℕ
nai_length t =
    if t == 0
    then ok 0
    else if t == 1
    then ok 4
    else if t == 2
    then ok 16
    else if t == 3
    then ok 8
    else if t == 4
    then ok 32
    else err unsupported_nai_type

-- The label, and with C=1 the other fields of the label stack entry.
unfoldable pub segment_of_word : ℕ → Bool → SegmentSrMpls
unfolding new_segment_srmpls
segment_of_word w c_flag =
    if c_flag
    then record (new_segment_srmpls (w / 4096)) {
      tc = bit_and (w / 512) 7;
      s = not (bit_and w 256 == 0);
      ttl = bit_and w 255;
    }
    else new_segment_srmpls (w / 4096)

-- The addresses that follow the SID, of a known length.
unfoldable pub read_addresses : ℕ → ℕ → SegmentSrMpls → List ℕ → Result EroError SegmentSrMpls
unfolding slice
read_addresses t n seg bytes =
    if t == 1 || t == 2
    then (slice bytes 8 (8 + n) >>= λ l. ok (record seg { local_addr = addr_from_slice l }))
    else if t == 3 || t == 4
    then (slice bytes 8 (8 + n / 2) >>= λ l. slice bytes (8 + n / 2) (8 + n) >>= λ r.
        ok (record seg { local_addr = addr_from_slice l; remote_addr = addr_from_slice r }))
    else ok seg

unfoldable pub read_nai : Bool → ℕ → SegmentSrMpls → List ℕ → Result EroError SegmentSrMpls
unfolding nai_length read_addresses
read_nai f_flag t seg bytes =
    if f_flag
    then ok seg
    else (nai_length t >>= λ n.
        guard (not (ltb 0 n && ltb (length bytes) (8 + n))) truncated_nai
        >> read_addresses t n seg bytes)

unfoldable pub decode_sr_ero : List ℕ → Result EroError SrEroSubobject
unfolding segment_of_word read_nai
decode_sr_ero bytes = do
  guard (not (ltb (length bytes) 8)) subobject_too_short
  b0 ← index bytes 0
  b1 ← index bytes 1
  b2 ← index bytes 2
  b3 ← index bytes 3
  word ← read32 (drop 4 bytes)
  segment ← read_nai (flag b3 8) (b2 / 16) (segment_of_word word (flag b3 2)) bytes
  ok (record {
    l_flag = flag b0 0x80;
    subobject_type = bit_and b0 0x7f;
    length = b1;
    nai_type = b2 / 16;
    f_flag = flag b3 8;
    s_flag = flag b3 4;
    c_flag = flag b3 2;
    m_flag = flag b3 1;
    segment = segment;
  })

unfoldable pub len_sr_ero : SrEroSubobject → Result EroError ℕ
unfolding nai_length
len_sr_ero o = if o.f_flag then ok 8 else (nai_length o.nai_type >>= λ n. ok (8 + n))

-- The SID, unless S says that it is absent, and the offset behind it.
unfoldable pub read_sid : Bool → List ℕ → Result EroError (SegmentSrv6 × ℕ)
unfolding slice new_segment_srv6
read_sid s_flag bytes =
    if s_flag
    then ok (new_segment_srv6 invalid, 8)
    else (guard (not (ltb (length bytes) 24)) truncated_sid
        >> (slice bytes 8 24 >>= λ sid. ok (new_segment_srv6 (addr_from_slice sid), 24)))

-- A node or an adjacency, at an offset; the interface IDs of a link-local one are not read.
unfoldable pub read_srv6_nai :
    Bool → ℕ → SegmentSrv6 → ℕ → List ℕ → Result EroError (SegmentSrv6 × ℕ)
unfolding slice
read_srv6_nai f_flag t seg off bytes =
    if f_flag
    then ok (seg, off)
    else if t == 2
    then (guard (not (ltb (length bytes) (off + 16))) truncated_nai
        >> (slice bytes off (off + 16) >>= λ l.
            ok (record seg { local_addr = addr_from_slice l }, off + 16)))
    else if t == 4
    then (guard (not (ltb (length bytes) (off + 32))) truncated_nai
        >> (slice bytes off (off + 16) >>= λ l. slice bytes (off + 16) (off + 32) >>= λ r. ok (
          record seg { local_addr = addr_from_slice l; remote_addr = addr_from_slice r },
          off + 32,
        )))
    else if t == 6
    then (guard (not (ltb (length bytes) (off + 40))) truncated_nai
        >> (slice bytes off (off + 16) >>= λ l. slice bytes (off + 20) (off + 36) >>= λ r. ok (
          record seg { local_addr = addr_from_slice l; remote_addr = addr_from_slice r },
          off + 40,
        )))
    else ok (seg, off)

unfoldable pub read_structure : Bool → SegmentSrv6 → ℕ → List ℕ → Result EroError SegmentSrv6
unfolding slice
read_structure t_flag seg off bytes =
    if t_flag
    then (guard (not (ltb (length bytes) (off + 8))) truncated_sid_structure
        >> (slice bytes off (off + 4) >>= λ s. ok (record seg { structure = some s })))
    else ok seg

unfoldable pub decode_srv6_ero : List ℕ → Result EroError Srv6EroSubobject
unfolding read_sid read_srv6_nai read_structure
decode_srv6_ero bytes = do
  guard (not (ltb (length bytes) 8)) subobject_too_short
  b0 ← index bytes 0
  b1 ← index bytes 1
  b2 ← index bytes 2
  b3 ← index bytes 3
  behavior ← read16 (drop 6 bytes)
  (sid, off) ← read_sid (flag b3 1) bytes
  (with_nai, end) ← read_srv6_nai (flag b3 2) (b2 / 16) sid off bytes
  seg ← read_structure (flag b3 4) with_nai end bytes
  ok (record {
    l_flag = flag b0 0x80;
    subobject_type = bit_and b0 0x7f;
    length = b1;
    nai_type = b2 / 16;
    v_flag = flag b3 8;
    t_flag = flag b3 4;
    f_flag = flag b3 2;
    s_flag = flag b3 1;
    segment = record seg { u_sid = behavior == 0x30 || behavior == 0x39 };
  })

unfoldable pub srv6_nai_length : Bool → ℕ → Result EroError ℕ
srv6_nai_length f_flag t =
    if f_flag
    then ok 0
    else if t == 2
    then ok 16
    else if t == 4
    then ok 32
    else if t == 6
    then ok 40
    else if t == 0
    then err absent_nai
    else err unsupported_nai_type

unfoldable pub len_srv6_ero : Srv6EroSubobject → Result EroError ℕ
unfolding srv6_nai_length
len_srv6_ero o = srv6_nai_length o.f_flag o.nai_type >>= λ n.
    ok (8 + (if o.s_flag then 0 else 16) + n + (if o.t_flag then 8 else 0))

unfoldable pub decode_rsvp_ipv4_prefix : List ℕ → Result EroError RsvpIpv4PrefixEroSubobject
unfolding slice
decode_rsvp_ipv4_prefix bytes = do
  guard (not (ltb (length bytes) 8)) subobject_too_short
  b1 ← index bytes 1
  guard (b1 == 8) invalid_length_field
  b0 ← index bytes 0
  addr ← slice bytes 2 6
  prefix ← index bytes 6
  guard (leb prefix 32) invalid_prefix_length
  ok (record {
    l_flag = flag b0 0x80;
    subobject_type = bit_and b0 0x7f;
    length = b1;
    address = v4 addr;
    prefix_len = prefix;
  })

-- The switch on the subobject type; the second component is `Len()` of the subobject.
unfoldable pub decode_subobject : List ℕ → Result EroError (EroSubobject × ℕ)
unfolding decode_sr_ero decode_srv6_ero decode_rsvp_ipv4_prefix len_sr_ero len_srv6_ero
decode_subobject bytes = index bytes 0 >>= λ b0.
    if bit_and b0 0x7f == 0x24
    then (decode_sr_ero bytes >>= λ o. len_sr_ero o >>= λ n. ok (sr_ero o, n))
    else if bit_and b0 0x7f == 0x28
    then (decode_srv6_ero bytes >>= λ o. len_srv6_ero o >>= λ n. ok (srv6_ero o, n))
    else if bit_and b0 0x7f == 0x01
    then (decode_rsvp_ipv4_prefix bytes >>= λ o. ok (rsvp_ipv4_prefix o, 8))
    else err invalid_subobject_type

-- The loop: what follows a subobject is found by its `Len()`, not by its length field.
unfoldable pub decode_subobjects : ℕ → List ℕ → Result EroError (List EroSubobject)
unfolding decode_subobject
decode_subobjects zero bytes = stuck
decode_subobjects (suc fuel) bytes = decode_subobject bytes >>= λ next.
    let rest = decode_subobjects fuel (drop next.1 bytes) >>= λ os. ok (next.0 ∷ os) in
    if ltb next.1 (length bytes)
    then rest
    else if next.1 == length bytes
    then ok (next.0 ∷ [])
    else err subobject_parse_error

unfoldable pub decode_ero_object : ℕ → List ℕ → Result EroError EroObject
unfolding decode_subobjects
decode_ero_object typ [] = ok (record { object_type = typ; ero_subobjects = [] })
decode_ero_object typ (b ∷ bs) = decode_subobjects (length (b ∷ bs)) (b ∷ bs) >>= λ os.
    ok (record { object_type = typ; ero_subobjects = os })
