-- ===== src/Pcep/Tlv/RoundTrip/Candidates.antt =====
-- The candidate path TLVs of pkg/packet/pcep/tlv.go are read back from what their serializers write.
use mathlib.Core.List.{append-nil}
use pce_testing.Base.{
  ℕ, ◌≡◌, refl, sym, ap, ◌∙◌, true, List, [], ◌∷◌, ◌++◌, arith, ok, length, drop, replicate,
  length-append, drop-append,
}
use pce_testing.Base.Bytes.{slice, index, read32, put16, put32, put32_read, IsU32}
use pce_testing.Net.{Addr, invalid, v4, v6}
use pce_testing.Pcep.Wire.{TlvError, is_ipv4_bytes}
use pce_testing.Pcep.Tlv.Types.{
  CandidatePathIdentifier, candidate_path_identifier, candidate_path_identifier_juniper,
}
use pce_testing.Pcep.Tlv.Read.{originator_addr_of, decode_candidate_path_identifier}
use pce_testing.Pcep.Tlv.Write.{originator_bytes, serialize_candidate_path_identifier}
use pce_testing.Pcep.Tlv.Serialize.{serialize}
use pce_testing.Pcep.Tlv.Sequence.{decode_known}
use pce_testing.Pcep.Tlv.RoundTrip.WellFormed.{IsOriginator, IsCandidate}
use pce_testing.Pcep.Tlv.RoundTrip.Frame.{unpadded, fixed_value_put}
use pce_testing.Pcep.Tlv.RoundTrip.Reads.{Sub, Reads, unpadded-Reads}
use pce_testing.Pcep.Tlv.RoundTrip.Fields.{copy_into_all, slice_part, framed_eq}

-- The bytes of an originator, and the address that they stand for.
zeros_then : (b : List ℕ) → length b ≡ 4 → is_ipv4_bytes (replicate 12 0 ++ b) ≡ true
unfolding is_ipv4_bytes
zeros_then b h = ground arith

originator_kept :
    (a : Addr)
    → IsOriginator a
    → (length (originator_bytes a) ≡ 16) × (originator_addr_of (originator_bytes a) ≡ a)
unfolding originator_bytes originator_addr_of
originator_kept invalid h = elim h [ ]
originator_kept (v4 b) h = rw (copy_into_all 4 b h) (omega arith, rw (zeros_then b h) refl)
originator_kept (v6 b z) h = rw (copy_into_all 16 b h.0) (h.0, rw h.2 (ap (v6 b) (sym h.1)))

module _ (o asn d : ℕ) (b : List ℕ) where
  abbrev candidate_value : List ℕ
  candidate_value = o ∷ 0 ∷ 0 ∷ 0 ∷ (put32 asn ++ (b ++ put32 d))

  length-candidate_value : length b ≡ 16 → length candidate_value ≡ 28
  unfolding put32
  length-candidate_value len = omega (arith, length-append b (put32 d))

  asn_at : IsU32 asn → read32 {E = TlvError} (drop 4 candidate_value) ≡ ok asn
  asn_at h = put32_read asn (b ++ put32 d) h

  originator_at : length b ≡ 16 → slice {E = TlvError} candidate_value 8 24 ≡ ok b
  unfolding put32
  originator_at len = slice_part (o ∷ 0 ∷ 0 ∷ 0 ∷ put32 asn) b (put32 d) 8 24 refl (omega arith)

  disc_at : length b ≡ 16 → IsU32 d → read32 {E = TlvError} (drop 24 candidate_value) ≡ ok d
  disc_at len h =
      let at : drop 24 candidate_value ≡ put32 d ++ [] =
        unfold put32 in drop-append b (put32 d) 16 len in
      rw at (put32_read d [] h)

decode_candidate_put :
    (t : CandidatePathIdentifier) (typ : ℕ)
    → IsCandidate t
    → decode_candidate_path_identifier (
        unpadded typ (
          candidate_value t.protocol_origin t.originator_asn t.discriminator
            (originator_bytes t.originator_addr)))
      ≡ ok t
unfolding decode_candidate_path_identifier
decode_candidate_put t typ h =
    let b = originator_bytes t.originator_addr in
    let (len, kept) = originator_kept t.originator_addr h.originator in
    let o = t.protocol_origin in
    rw
      (fixed_value_put typ (candidate_value o t.originator_asn t.discriminator b) 28
        (length-candidate_value o t.originator_asn t.discriminator b len) (omega arith))
      (unfold index in
        rw (asn_at o t.originator_asn t.discriminator b h.asn) (
          rw (originator_at o t.originator_asn t.discriminator b len) (
            rw (disc_at o t.originator_asn t.discriminator b len h.disc) (λ i. ok (record {
              protocol_origin = o;
              originator_asn = t.originator_asn;
              originator_addr = kept i;
              discriminator = t.discriminator;
            })))))

candidate_writes :
    (t : CandidatePathIdentifier) (typ : ℕ)
    → IsCandidate t
    → serialize_candidate_path_identifier t typ
      ≡ unpadded typ (
          candidate_value t.protocol_origin t.originator_asn t.discriminator
            (originator_bytes t.originator_addr))
        ++ []
unfolding serialize_candidate_path_identifier
candidate_writes t typ h =
    let b = originator_bytes t.originator_addr in
    let (len, kept) = originator_kept t.originator_addr h.originator in
    let v = candidate_value t.protocol_origin t.originator_asn t.discriminator b in
    framed_eq typ 28 v
    ∙ ap (λ n. put16 typ ++ (put16 n ++ v))
        (sym (length-candidate_value t.protocol_origin t.originator_asn t.discriminator b len))
    ∙ sym (append-nil (unpadded typ v))

module _ (sub : Sub) where
  pub candidate_path_identifier-Reads :
      (t : CandidatePathIdentifier) → IsCandidate t → Reads sub (candidate_path_identifier t)
  candidate_path_identifier-Reads t h =
      let b = originator_bytes t.originator_addr in
      let len = (originator_kept t.originator_addr h.originator).0 in
      unpadded-Reads sub (candidate_path_identifier t) 0x39
        (candidate_value t.protocol_origin t.originator_asn t.discriminator b) 28
        (unfold serialize in candidate_writes t 0x39 h) (omega arith)
        (length-candidate_value t.protocol_origin t.originator_asn t.discriminator b len)
        (omega arith) (omega arith) (unfold decode_known in rw (decode_candidate_put t 0x39 h))

  pub candidate_path_identifier_juniper-Reads :
      (t : CandidatePathIdentifier)
      → IsCandidate t
      → Reads sub (candidate_path_identifier_juniper t)
  candidate_path_identifier_juniper-Reads t h =
      let b = originator_bytes t.originator_addr in
      let len = (originator_kept t.originator_addr h.originator).0 in
      unpadded-Reads sub (candidate_path_identifier_juniper t) 0xffe4
        (candidate_value t.protocol_origin t.originator_asn t.discriminator b) 28
        (unfold serialize in candidate_writes t 0xffe4 h) (omega arith)
        (length-candidate_value t.protocol_origin t.originator_asn t.discriminator b len)
        (omega arith) (omega arith) (unfold decode_known in rw (decode_candidate_put t 0xffe4 h))
