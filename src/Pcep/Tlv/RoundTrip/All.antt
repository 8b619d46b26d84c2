-- ===== src/Pcep/Tlv/RoundTrip/All.antt =====
-- DecodeTLVs of pkg/packet/pcep/tlv.go reads back every sequence that the serializers write.
use pce_testing.Base.{ℕ, zero, suc, ◌≤◌, ◌≡◌, refl, List, arith, ok, stuck, length, length-append}
use pce_testing.Pcep.Tlv.Types.{
  Tlv, Tlvs, vendor_information, stateful_pce_capability, symbolic_path_name, ipv4_lsp_identifiers,
  ipv6_lsp_identifiers, lsp_db_version, sr_pce_capability, srv6_pce_capability,
  multipath_capability, path_setup_type, extended_association_id, extended_association_id_juniper,
  path_setup_type_capability, assoc_type_list, candidate_path_identifier,
  candidate_path_identifier_juniper, candidate_path_preference, candidate_path_preference_juniper,
  color, unknown, nil, cons, to_list,
}
use pce_testing.Pcep.Tlv.Serialize.{serialize, serialize_all}
use pce_testing.Pcep.Tlv.Sequence.{decode_known, decode_tlv_sequence, decode_tlv, decode_tlvs}
use pce_testing.Pcep.Tlv.Lengths.{nested_shorter, len_all-length}
use pce_testing.Pcep.Tlv.RoundTrip.WellFormed.{IsWellFormed, AllWellFormed}
use pce_testing.Pcep.Tlv.RoundTrip.Reads.{Sub, Reads}
use pce_testing.Pcep.Tlv.RoundTrip.Leaf.{
  color-Reads, preference-Reads, preference_juniper-Reads, path_setup_type-Reads,
  lsp_db_version-Reads, srv6_pce_capability-Reads,
}
use pce_testing.Pcep.Tlv.RoundTrip.Flags.{
  sr_pce_capability-Reads, stateful_pce_capability-Reads, multipath_capability-Reads,
}
use pce_testing.Pcep.Tlv.RoundTrip.Values.{
  symbolic_path_name-Reads, assoc_type_list-Reads, unknown-Reads,
}
use pce_testing.Pcep.Tlv.RoundTrip.Addresses.{
  ipv4_lsp_identifiers-Reads, ipv6_lsp_identifiers-Reads,
}
use pce_testing.Pcep.Tlv.RoundTrip.Vendors.{vendor_information-Reads}
use pce_testing.Pcep.Tlv.RoundTrip.Associations.{
  extended_association_id-Reads, extended_association_id_juniper-Reads,
}
use pce_testing.Pcep.Tlv.RoundTrip.Candidates.{
  candidate_path_identifier-Reads, candidate_path_identifier_juniper-Reads,
}
use pce_testing.Pcep.Tlv.RoundTrip.Nested.{
  AllReads, AllReads-aligned, sequence_put, path_setup_type_capability-Reads,
}

-- How a nested sequence is read at a depth.
abbrev sub_at : ℕ → Sub
sub_at zero = λ bytes. stuck
sub_at (suc depth) = λ bytes. decode_tlv_sequence (length bytes) (decode_tlv depth) bytes

decode_tlv_at : (depth : ℕ) → decode_tlv depth ≡ decode_known (sub_at depth)
unfolding decode_tlv
decode_tlv_at zero = refl
decode_tlv_at (suc depth) = refl

sub_put :
    (depth : ℕ) (ts : Tlvs)
    → AllReads (sub_at depth) ts
    → sub_at (suc depth) (serialize_all ts) ≡ ok (to_list ts)
sub_put depth ts all =
    rw (decode_tlv_at depth)
      (sequence_put (sub_at depth) ts (length (serialize_all ts)) all (omega arith))

nested_fits :
    (psts : List ℕ) (subs : Tlvs) (depth : ℕ)
    → length (serialize (path_setup_type_capability psts subs)) ≤ suc depth
    → length (serialize_all subs) ≤ depth
nested_fits psts subs depth h = omega (arith, nested_shorter psts subs)

never_empty :
    (psts : List ℕ) (subs : Tlvs)
    → length (serialize (path_setup_type_capability psts subs)) ≤ 0
    → ⊥
never_empty psts subs h = omega (arith, nested_shorter psts subs)

first_fits :
    (t : Tlv) (ts : Tlvs) (depth : ℕ)
    → length (serialize_all (cons t ts)) ≤ depth
    → (length (serialize t) ≤ depth) × (length (serialize_all ts) ≤ depth)
unfolding serialize_all
first_fits t ts depth h = omega (arith, length-append (serialize t) (serialize_all ts))

nested-Reads :
    (depth : ℕ) (psts : List ℕ) (subs : Tlvs)
    → IsWellFormed (path_setup_type_capability psts subs)
    → AllReads (sub_at depth) subs
    → Reads (sub_at (suc depth)) (path_setup_type_capability psts subs)
nested-Reads depth psts subs h all =
    path_setup_type_capability-Reads psts subs h.0 (sub_at (suc depth))
      (len_all-length subs h.1 (omega (arith, h.2))) h.2 (AllReads-aligned (sub_at depth) subs all)
      (sub_put depth subs all)

mutual
  reads :
      (depth : ℕ) (t : Tlv) → IsWellFormed t → length (serialize t) ≤ depth → Reads (sub_at depth) t
  reads depth (vendor_information t) h l = vendor_information-Reads (sub_at depth) t h.0 h.1
  reads depth (stateful_pce_capability t) h l = stateful_pce_capability-Reads (sub_at depth) t h
  reads depth (symbolic_path_name name) h l = symbolic_path_name-Reads (sub_at depth) name h.0 h.1
  reads depth (ipv4_lsp_identifiers t) h l =
      ipv4_lsp_identifiers-Reads (sub_at depth) t h.0 h.1 h.2 h.3 h.4
  reads depth (ipv6_lsp_identifiers t) h l =
      ipv6_lsp_identifiers-Reads (sub_at depth) t h.0 h.1 h.2 h.3 h.4
  reads depth (lsp_db_version v) h l = lsp_db_version-Reads (sub_at depth) v h
  reads depth (sr_pce_capability t) h l = sr_pce_capability-Reads (sub_at depth) t
  reads depth (srv6_pce_capability b) h l = srv6_pce_capability-Reads (sub_at depth) b
  reads depth (multipath_capability t) h l = multipath_capability-Reads (sub_at depth) t h
  reads depth (path_setup_type p) h l = path_setup_type-Reads (sub_at depth) p
  reads depth (extended_association_id t) h l =
      extended_association_id-Reads (sub_at depth) t h.0 h.1
  reads depth (extended_association_id_juniper t) h l =
      extended_association_id_juniper-Reads (sub_at depth) t h.0 h.1
  reads zero (path_setup_type_capability psts subs) h l = absurd (never_empty psts subs l)
  reads (suc depth) (path_setup_type_capability psts subs) h l =
      nested-Reads depth psts subs h (reads_all depth subs h.1 (nested_fits psts subs depth l))
  reads depth (assoc_type_list types) h l = assoc_type_list-Reads (sub_at depth) types h.0 h.1
  reads depth (candidate_path_identifier t) h l = candidate_path_identifier-Reads (sub_at depth) t h
  reads depth (candidate_path_identifier_juniper t) h l =
      candidate_path_identifier_juniper-Reads (sub_at depth) t h
  reads depth (candidate_path_preference p) h l = preference-Reads (sub_at depth) p h
  reads depth (candidate_path_preference_juniper p) h l =
      preference_juniper-Reads (sub_at depth) p h
  reads depth (color c) h l = color-Reads (sub_at depth) c h
  reads depth (unknown t) h l = unknown-Reads (sub_at depth) t h.0 h.1 h.2 h.3

  reads_all :
      (depth : ℕ) (ts : Tlvs)
      → AllWellFormed ts
      → length (serialize_all ts) ≤ depth
      → AllReads (sub_at depth) ts
  reads_all depth nil h l = tt
  reads_all depth (cons t ts) h l = (
    reads depth t h.0 (first_fits t ts depth l).0,
    reads_all depth ts h.1 (first_fits t ts depth l).1,
  )

-- `DecodeTLVs` reads back, in order and with nothing left over, every sequence of TLVs whose fields
-- fit the wire from the bytes that their `Serialize` methods write, nested sequences included.
pub decode_tlvs-serialize_all :
    (ts : Tlvs) → AllWellFormed ts → decode_tlvs (serialize_all ts) ≡ ok (to_list ts)
unfolding decode_tlvs
decode_tlvs-serialize_all ts h =
    let n = length (serialize_all ts) in
    rw (decode_tlv_at n)
      (sequence_put (sub_at n) ts n (reads_all n ts h (omega arith)) (omega arith))
