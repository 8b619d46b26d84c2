-- ===== src/Pcep/Report/Ero/LengthsSrv6.antt =====
-- Which segments of pkg/table/sr_policy.go the SRv6-ERO subobject of pkg/packet/pcep/object.go carries.
use pce_testing.Base.{
  ℕ, ◌+◌, ◌≤◌, ◌≡◌, refl, sym, ap, ◌∙◌, Bool, true, false, not, List, [], ◌∷◌, ◌++◌, arith, Option,
  none, some, Result, ok, err, ◌>>=◌, length, length-append, if◌then◌else◌,
}
use pce_testing.Base.Bytes.{u8, put16}
use pce_testing.Net.{Addr, invalid, v4, v6, as_slice, is_valid}
use pce_testing.Table.Segment.{SegmentSrv6, SegmentError, behavior}
use pce_testing.Pcep.Wire.{append_byte_slices}
use pce_testing.Pcep.Report.Ero.{Srv6EroSubobject}
use pce_testing.Pcep.Report.Ero.Decode.{EroError, len_srv6_ero}
use pce_testing.Pcep.Report.Ero.WriteSrv6.{
  srv6_ero_parts, remote_bytes, srv6_ero_of, new_srv6_ero_subobject, structure_bytes,
  serialize_srv6_ero,
}

abbrev pub IsSixteen : Addr → Type 0
IsSixteen (v6 b z) = length b ≡ 16
IsSixteen _ = ⊥

abbrev pub IsRemote : Addr → Type 0
IsRemote invalid = Unit {0}
IsRemote (v6 b z) = length b ≡ 16
IsRemote _ = ⊥

abbrev pub IsStructure : Option (List ℕ) → Type 0
IsStructure none = Unit {0}
IsStructure (some s) = length s ≡ 4

-- An SRv6 segment with a SID and a local address.
pub record IsLocated (seg : SegmentSrv6) : Type 0 where
  pub sid : IsSixteen seg.sid
  pub local_addr : IsSixteen seg.local_addr
  pub remote_addr : IsRemote seg.remote_addr
  pub structure : IsStructure seg.structure

abbrev pub IsWrittenSrv6 : Srv6EroSubobject → Type 0
IsWrittenSrv6 o =
    (bytes : List ℕ) × (serialize_srv6_ero o ≡ ok bytes)
    × (len_srv6_ero o ≡ ok (length bytes))
    × (o.length ≡ length bytes)

abbrev pub segment_of : Addr → Addr → Addr → Option (List ℕ) → Bool → SegmentSrv6
segment_of sid l r st u = record {
  sid = sid;
  local_addr = l;
  remote_addr = r;
  structure = st;
  u_sid = u;
}

-- The lengths of the parts that are not fixed.
abbrev variable : SegmentSrv6 → ℕ
variable seg =
    length (as_slice seg.sid)
    + (length (as_slice seg.local_addr) + length (remote_bytes seg.remote_addr))
    + length (structure_bytes seg.structure)

length-srv6_ero_parts :
    (o : Srv6EroSubobject) (b : ℕ)
    → length (append_byte_slices (srv6_ero_parts o b)) ≡ 8 + variable o.segment
unfolding append_byte_slices put16
length-srv6_ero_parts o b =
    let l = as_slice o.segment.local_addr in
    let r = remote_bytes o.segment.remote_addr in
    let st = structure_bytes o.segment.structure in
    omega (
      arith,
      length-append (as_slice o.segment.sid) ((l ++ r) ++ (st ++ [])),
      length-append (l ++ r) (st ++ []),
      length-append l r,
      length-append st [],
    )

located_behavior : (seg : SegmentSrv6) → IsSixteen seg.local_addr → (b : ℕ) × (behavior seg ≡ ok b)
unfolding behavior
located_behavior seg h = choose seg.local_addr seg.u_sid (is_valid seg.remote_addr) h
  where
    choose :
        (l : Addr) (u v : Bool)
        → IsSixteen l
        → (b : ℕ) × ((if not (is_valid l)
              then err SegmentError.local_addr_invalid
              else if u
              then (if v then ok 0x39 else ok 0x30)
              else if v
              then ok 0x05
              else ok 0x01)
            ≡ ok b)
    choose invalid u v h = absurd h
    choose (v4 b) u v h = absurd h
    choose (v6 b z) true true h = (0x39, refl)
    choose (v6 b z) true false h = (0x30, refl)
    choose (v6 b z) false true h = (0x05, refl)
    choose (v6 b z) false false h = (0x01, refl)

written_as :
    (o : Srv6EroSubobject) (b : ℕ)
    → behavior o.segment ≡ ok b
    → serialize_srv6_ero o ≡ ok (append_byte_slices (srv6_ero_parts o b))
unfolding serialize_srv6_ero
written_as o b h = rw (h, serialize_srv6_ero) refl

len_of :
    (seg : SegmentSrv6) (k : ℕ)
    → IsLocated seg
    → (len_srv6_ero (srv6_ero_of seg k) ≡ ok (8 + variable seg)) × (variable seg ≤ 56)
unfolding len_srv6_ero
len_of seg k h =
    by_parts seg.sid seg.local_addr seg.remote_addr seg.structure seg.u_sid h.sid h.local_addr
      h.remote_addr h.structure
  where
    by_parts :
        (sid l r : Addr) (st : Option (List ℕ)) (u : Bool)
        → IsSixteen sid
        → IsSixteen l
        → IsRemote r
        → IsStructure st
        → (len_srv6_ero (srv6_ero_of (segment_of sid l r st u) k)
            ≡ ok (8 + variable (segment_of sid l r st u)))
          × (variable (segment_of sid l r st u) ≤ 56)
    by_parts (v6 a x) (v6 b y) invalid none u ha hb hc hd = (ap ok (omega arith), omega arith)
    by_parts (v6 a x) (v6 b y) invalid (some s) u ha hb hc hd =
        let n = length-append s (0 ∷ 0 ∷ 0 ∷ 0 ∷ []) in (ap ok (omega arith), omega arith)
    by_parts (v6 a x) (v6 b y) (v6 c z) none u ha hb hc hd = (ap ok (omega arith), omega arith)
    by_parts (v6 a x) (v6 b y) (v6 c z) (some s) u ha hb hc hd =
        let n = length-append s (0 ∷ 0 ∷ 0 ∷ 0 ∷ []) in (ap ok (omega arith), omega arith)
    by_parts invalid l r st u ha hb hc hd = absurd ha
    by_parts (v4 a) l r st u ha hb hc hd = absurd ha
    by_parts (v6 a x) invalid r st u ha hb hc hd = absurd hb
    by_parts (v6 a x) (v4 b) r st u ha hb hc hd = absurd hb
    by_parts (v6 a x) (v6 b y) (v4 c) st u ha hb hc hd = absurd hc

-- An SRv6 segment with a SID and a local address is made into a subobject that `Serialize` writes
-- without an error, in as many bytes as `Len` gives and as the length field says, where its addresses
-- have sixteen bytes and its SID structure, if there is one, has four.
pub new_srv6_ero_subobject-IsWrittenSrv6 :
    (seg : SegmentSrv6)
    → IsLocated seg
    → (o : Srv6EroSubobject) × (new_srv6_ero_subobject seg ≡ ok o) × IsWrittenSrv6 o
unfolding new_srv6_ero_subobject
new_srv6_ero_subobject-IsWrittenSrv6 seg h =
    let n = 8 + variable seg in
    let o = srv6_ero_of seg (u8 n) in
    let (len, small) = len_of seg 0 h in
    let (b, eb) = located_behavior seg h.local_addr in
    let long = length-srv6_ero_parts o b in
    (
      o,
      then_made (len_srv6_ero (srv6_ero_of seg 0)) n (λ k. srv6_ero_of seg (u8 k)) len,
      (
        append_byte_slices (srv6_ero_parts o b),
        written_as o b eb,
        (len_of seg (u8 n) h).0 ∙ ap ok (sym long),
        omega arith,
      ),
    )
  where
    then_made :
        (x : Result EroError ℕ) (n : ℕ) (f : ℕ → Srv6EroSubobject)
        → x ≡ ok n
        → (x >>= λ k. ok (f k)) ≡ ok (f n)
    then_made x n f e = rw e refl

-- `NewSRv6EroSubobject` accepts every segment without a local address, but `Serialize` of the
-- subobject that it makes always fails.
pub new_srv6_ero_subobject_unwritable :
    (sid r : Addr) (st : Option (List ℕ)) (u : Bool)
    → (o : Srv6EroSubobject) × (new_srv6_ero_subobject (segment_of sid invalid r st u) ≡ ok o)
      × (serialize_srv6_ero o ≡ err EroError.segment_without_behavior)
unfolding new_srv6_ero_subobject serialize_srv6_ero
new_srv6_ero_subobject_unwritable sid r none u =
    (srv6_ero_of (segment_of sid invalid r none u) 24, refl, refl)
new_srv6_ero_subobject_unwritable sid r (some s) u =
    (srv6_ero_of (segment_of sid invalid r (some s) u) 32, refl, refl)
