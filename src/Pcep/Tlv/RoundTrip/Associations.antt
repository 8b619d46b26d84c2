-- ===== src/Pcep/Tlv/RoundTrip/Associations.antt =====
-- The association TLVs of pkg/packet/pcep/tlv.go are read back from what their serializers write.
use mathlib.Core.List.{append-nil}
use pce_testing.Base.{
  ℕ, ◌≡◌, ◌⊎◌, inl, inr, refl, sym, ap, ◌∙◌, true, false, List, [], ◌++◌, arith, ok, ◌==◌, length,
}
use pce_testing.Base.Bytes.{slice, put16, put32, put32_read, IsU32}
use pce_testing.Net.{Addr, invalid, v4, v6, addr_from_slice, as_slice}
use pce_testing.Pcep.Wire.{TlvError}
use pce_testing.Pcep.Tlv.Types.{
  ExtendedAssociationId, extended_association_id, extended_association_id_juniper,
}
use pce_testing.Pcep.Tlv.Read.{
  endpoint_bytes, decode_extended_association_id, decode_extended_association_id_juniper,
}
use pce_testing.Pcep.Tlv.Write.{
  serialize_association, serialize_extended_association_id,
  serialize_extended_association_id_juniper,
}
use pce_testing.Pcep.Tlv.Serialize.{serialize}
use pce_testing.Pcep.Tlv.Sequence.{decode_known}
use pce_testing.Pcep.Tlv.RoundTrip.WellFormed.{IsV4, IsEndpoint}
use pce_testing.Pcep.Tlv.RoundTrip.Frame.{unpadded, tlv_value_put, fixed_value_put}
use pce_testing.Pcep.Tlv.RoundTrip.Reads.{Sub, Reads, unpadded-Reads}
use pce_testing.Pcep.Tlv.RoundTrip.Fields.{copy_into_all, slice_part, v4_kept, v6_kept, framed_eq}
use pce_testing.Pcep.Tlv.RoundTrip.Vendors.{long_enough}

pub IsEndpoint-bytes :
    (a : Addr)
    → IsEndpoint a
    → ((length (as_slice a) ≡ 4) ⊎ (length (as_slice a) ≡ 16)) × (addr_from_slice (as_slice a) ≡ a)
IsEndpoint-bytes invalid h = elim h [ ]
IsEndpoint-bytes (v4 b) h = let k = v4_kept (v4 b) h in (inl k.0, k.1)
IsEndpoint-bytes (v6 b z) h = let k = v6_kept (v6 b z) h in (inr k.0, k.1)

IsV4-IsEndpoint : (a : Addr) → IsV4 a → IsEndpoint a
IsV4-IsEndpoint invalid h = elim h [ ]
IsV4-IsEndpoint (v4 b) h = h
IsV4-IsEndpoint (v6 b z) h = elim h [ ]

endpoint_bytes_put :
    (c : ℕ) (s : List ℕ) → (length s ≡ 4) ⊎ (length s ≡ 16) → endpoint_bytes (put32 c ++ s) ≡ ok s
unfolding endpoint_bytes
endpoint_bytes_put c s (inl h) =
    let e : (length (put32 c ++ s) == 8) ≡ true = unfold put32 in ground arith in
    rw e (
      ap (λ v. slice {E = TlvError} (put32 c ++ v) 4 8) (sym (append-nil s))
      ∙ slice_part (put32 c) s [] 4 8 (unfold put32 in refl) (omega arith))
endpoint_bytes_put c s (inr h) =
    let e : (length (put32 c ++ s) == 8) ≡ false = unfold put32 in ground arith in
    let e2 : (length (put32 c ++ s) == 20) ≡ true = unfold put32 in ground arith in
    rw (e, e2)
      (ap (λ v. slice {E = TlvError} (put32 c ++ v) 4 20) (sym (append-nil s))
        ∙ slice_part (put32 c) s [] 4 20 (unfold put32 in refl) (omega arith))

pub decode_association_put :
    (t : ExtendedAssociationId) (typ : ℕ)
    → IsU32 t.color
    → IsEndpoint t.endpoint
    → decode_extended_association_id (unpadded typ (put32 t.color ++ as_slice t.endpoint)) ≡ ok t
unfolding decode_extended_association_id
decode_association_put t typ hc he =
    let s = as_slice t.endpoint in
    let (ls, ks) = IsEndpoint-bytes t.endpoint he in
    rw (tlv_value_put typ (put32 t.color ++ s) false (unfold put32 in ground arith)) (
      rw (long_enough t.color s, put32_read {E = TlvError} t.color s hc)
        (rw (endpoint_bytes_put t.color s ls)
          (unfold put32 in λ i. ok (record { color = t.color; endpoint = ks i }))))

pub decode_juniper_put :
    (t : ExtendedAssociationId)
    → IsU32 t.color
    → IsV4 t.endpoint
    → decode_extended_association_id_juniper
        (unpadded 0xffe3 (put32 t.color ++ as_slice t.endpoint))
      ≡ ok t
unfolding decode_extended_association_id_juniper
decode_juniper_put t hc he =
    let (ls, ks) = v4_kept t.endpoint he in
    rw
      (fixed_value_put 0xffe3 (put32 t.color ++ as_slice t.endpoint) 8 (unfold put32 in omega arith)
        (omega arith))
      (decode_association_put t 0xffe3 hc (IsV4-IsEndpoint t.endpoint he))

-- What the two association serializers write for an endpoint of either family.
pub association_writes :
    (c typ : ℕ) (a : Addr)
    → IsEndpoint a
    → serialize_association (record { color = c; endpoint = a }) typ
      ≡ unpadded typ (put32 c ++ as_slice a) ++ []
unfolding serialize_association
association_writes c typ invalid h = elim h [ ]
association_writes c typ (v4 b) h =
    let e : 8 ≡ length (put32 c ++ b) = unfold put32 in omega arith in
    rw (copy_into_all 4 b h) (
      framed_eq typ 8 (put32 c ++ b)
      ∙ ap (λ n. put16 typ ++ (put16 n ++ (put32 c ++ b))) e
      ∙ sym (append-nil (unpadded typ (put32 c ++ b))))
association_writes c typ (v6 b z) h =
    let e : 20 ≡ length (put32 c ++ b) = unfold put32 in omega (arith, h.0) in
    rw (copy_into_all 16 b h.0) (
      framed_eq typ 20 (put32 c ++ b)
      ∙ ap (λ n. put16 typ ++ (put16 n ++ (put32 c ++ b))) e
      ∙ sym (append-nil (unpadded typ (put32 c ++ b))))

pub juniper_writes :
    (c : ℕ) (a : Addr)
    → IsV4 a
    → serialize_extended_association_id_juniper (record { color = c; endpoint = a })
      ≡ unpadded 0xffe3 (put32 c ++ as_slice a) ++ []
unfolding serialize_extended_association_id_juniper
juniper_writes c invalid h = elim h [ ]
juniper_writes c (v4 b) h = association_writes c 0xffe3 (v4 b) h
juniper_writes c (v6 b z) h = elim h [ ]

module _ (sub : Sub) where
  pub extended_association_id-Reads :
      (t : ExtendedAssociationId)
      → IsU32 t.color
      → IsEndpoint t.endpoint
      → Reads sub (extended_association_id t)
  extended_association_id-Reads t hc he = association-Reads (IsEndpoint-bytes t.endpoint he).0
    where
      association-Reads :
          (length (as_slice t.endpoint) ≡ 4) ⊎ (length (as_slice t.endpoint) ≡ 16)
          → Reads sub (extended_association_id t)
      association-Reads (inl l) =
          unpadded-Reads sub (extended_association_id t) 0x1f (put32 t.color ++ as_slice t.endpoint)
            8
            (unfold serialize serialize_extended_association_id in
              association_writes t.color 0x1f t.endpoint he)
            (omega arith) (unfold put32 in omega arith) (omega arith) (omega arith)
            (unfold decode_known in rw (decode_association_put t 0x1f hc he))
      association-Reads (inr l) =
          unpadded-Reads sub (extended_association_id t) 0x1f (put32 t.color ++ as_slice t.endpoint)
            20
            (unfold serialize serialize_extended_association_id in
              association_writes t.color 0x1f t.endpoint he)
            (omega arith) (unfold put32 in omega arith) (omega arith) (omega arith)
            (unfold decode_known in rw (decode_association_put t 0x1f hc he))

  pub extended_association_id_juniper-Reads :
      (t : ExtendedAssociationId)
      → IsU32 t.color
      → IsV4 t.endpoint
      → Reads sub (extended_association_id_juniper t)
  extended_association_id_juniper-Reads t hc he =
      let (l, k) = v4_kept t.endpoint he in
      unpadded-Reads sub (extended_association_id_juniper t) 0xffe3
        (put32 t.color ++ as_slice t.endpoint) 8
        (unfold serialize in juniper_writes t.color t.endpoint he) (omega arith)
        (unfold put32 in omega arith) (omega arith) (omega arith)
        (unfold decode_known in rw (decode_juniper_put t hc he))
