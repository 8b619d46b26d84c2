-- ===== src/Pcep/Tlv/Lengths.antt =====
-- Len() of a TLV of pkg/packet/pcep/tlv.go is the number of bytes that Serialize() writes.
use pce_testing.Base.{
  ℕ, ◌+◌, ◌-◌, ◌*◌, ◌≤◌, ◌<◌, ◌≡◌, refl, sym, ◌∙◌, List, [], ◌∷◌, ◌++◌, arith, if◌then◌else◌,
  length, take, replicate, length-append, length-take, length-replicate,
}
use pce_testing.Base.Bytes.{u16, put16, put32}
use pce_testing.Net.{Addr, invalid, v4, v6, is4, as_slice}
use pce_testing.Pcep.Wire.{padded_length}
use pce_testing.Pcep.Tlv.Types.{
  VendorInformation, UnknownTlv, CandidatePathIdentifier, Ipv4LspIdentifiers, Ipv6LspIdentifiers,
  Tlv, Tlvs, vendor_information, stateful_pce_capability, symbolic_path_name, ipv4_lsp_identifiers,
  ipv6_lsp_identifiers, lsp_db_version, sr_pce_capability, srv6_pce_capability,
  multipath_capability, path_setup_type, extended_association_id, extended_association_id_juniper,
  path_setup_type_capability, assoc_type_list, candidate_path_identifier,
  candidate_path_identifier_juniper, candidate_path_preference, candidate_path_preference_juniper,
  color, unknown, nil, cons,
}
use pce_testing.Pcep.Tlv.Write.{
  copy_into, framed, padding_of, put16_all, pst_count, padded_pst_length, originator_bytes,
  vendor_value_length, vendor_padded_value_length, serialize_assoc_type_list,
  serialize_candidate_path_identifier, serialize_association, serialize_extended_association_id,
  serialize_extended_association_id_juniper, serialize_ipv4_lsp_identifiers,
  serialize_ipv6_lsp_identifiers, serialize_symbolic_path_name, serialize_unknown,
  serialize_vendor_information,
}
use pce_testing.Pcep.Tlv.Serialize.{
  len, len_all, serialize, serialize_all, len_symbolic_path_name, len_assoc_type_list,
  len_association, len_unknown,
}
use pce_testing.Pcep.Tlv.RoundTrip.WellFormed.{
  IsWellFormed, AllWellFormed, IsV4, IsEndpoint, max_value,
}
use pce_testing.Pcep.Tlv.RoundTrip.Fields.{framed_eq}

length-framed : (typ n : ℕ) (xs : List ℕ) → length (framed typ n xs) ≡ 4 + length xs
unfolding put16
length-framed typ n xs = rw (framed_eq typ n xs) (omega arith)

length-copy_into : (n : ℕ) (xs : List ℕ) → length (copy_into n xs) ≡ n
unfolding copy_into
length-copy_into n xs = omega (
  arith,
  length-append (take n xs) (replicate (n - length xs) 0),
  length-take n xs,
  length-replicate {A = ℕ} (n - length xs) 0,
)

length-originator_bytes : (a : Addr) → length (originator_bytes a) ≡ 16
unfolding originator_bytes
length-originator_bytes invalid = refl
length-originator_bytes (v4 b) = omega (arith, length-copy_into 4 b)
length-originator_bytes (v6 b z) = length-copy_into 16 b

length_behind : (n : ℕ) (xs ys : List ℕ) → length ys ≡ 4 → length (copy_into n xs ++ ys) ≡ n + 4
length_behind n xs ys h = omega (arith, length-append (copy_into n xs) ys, length-copy_into n xs)

vendor_length :
    (t : VendorInformation)
    → 4 + length t.enterprise_specific_information ≤ max_value
    → u16 (4 + vendor_padded_value_length t) ≡ length (serialize_vendor_information t)
unfolding serialize_vendor_information vendor_padded_value_length vendor_value_length put32
    padded_length
vendor_length t small =
    rw
      (length-framed 0x07 (vendor_value_length t) (
        put32 t.enterprise_number
        ++ copy_into (vendor_padded_value_length t - 4) t.enterprise_specific_information))
      (ground (
        arith,
        length-copy_into (vendor_padded_value_length t - 4) t.enterprise_specific_information,
      ))

padded_tail : (xs : List ℕ) (k : ℕ) → length (xs ++ replicate k 0) ≡ length xs + k
padded_tail xs k = omega (arith, length-append xs (replicate k 0), length-replicate {A = ℕ} k 0)

pub name_length :
    (name : List ℕ)
    → length name ≤ max_value
    → len_symbolic_path_name name ≡ length (serialize_symbolic_path_name name)
unfolding len_symbolic_path_name serialize_symbolic_path_name
name_length name small =
    rw (length-framed 0x11 (u16 (length name)) (name ++ replicate (padding_of (length name)) 0))
      (omega (arith, padded_tail name (padding_of (length name))))

ipv4_length : (t : Ipv4LspIdentifiers) → 20 ≡ length (serialize_ipv4_lsp_identifiers t)
unfolding serialize_ipv4_lsp_identifiers
ipv4_length t =
    let s = copy_into 4 (as_slice t.ipv4_tunnel_sender_address) in
    let e = copy_into 4 (as_slice t.ipv4_tunnel_endpoint_address) in
    let r = put16 t.lsp_id ++ (put16 t.tunnel_id ++ (put32 t.extended_tunnel_id ++ e)) in
    rw (length-framed 0x12 16 (s ++ r)) (
      unfold put16 put32 in
      omega (
        arith,
        length-append s r,
        length-copy_into 4 (as_slice t.ipv4_tunnel_sender_address),
        length-copy_into 4 (as_slice t.ipv4_tunnel_endpoint_address),
      ))

ipv6_length : (t : Ipv6LspIdentifiers) → 56 ≡ length (serialize_ipv6_lsp_identifiers t)
unfolding serialize_ipv6_lsp_identifiers
ipv6_length t =
    let s = copy_into 16 (as_slice t.ipv6_tunnel_sender_address) in
    let x = copy_into 16 t.extended_tunnel_id in
    let e = copy_into 16 (as_slice t.ipv6_tunnel_endpoint_address) in
    let r = put16 t.lsp_id ++ (put16 t.tunnel_id ++ (x ++ e)) in
    rw (length-framed 0x13 52 (s ++ r)) (
      unfold put16 in
      omega (
        arith,
        length-append s r,
        length-append x e,
        length-copy_into 16 (as_slice t.ipv6_tunnel_sender_address),
        length-copy_into 16 t.extended_tunnel_id,
        length-copy_into 16 (as_slice t.ipv6_tunnel_endpoint_address),
      ))

pub association_length :
    (c typ : ℕ) (a : Addr)
    → IsEndpoint a
    → len_association a ≡ length (serialize_association (record { color = c; endpoint = a }) typ)
unfolding serialize_association len_association put32
association_length c typ invalid h = elim h [ ]
association_length c typ (v4 b) h =
    sym (length-framed typ 8 (put32 c ++ copy_into 4 b) ∙ omega (arith, length-copy_into 4 b))
association_length c typ (v6 b z) h =
    sym (length-framed typ 20 (put32 c ++ copy_into 16 b) ∙ omega (arith, length-copy_into 16 b))

pub juniper_length :
    (c : ℕ) (a : Addr)
    → IsV4 a
    → (if is4 a then 12 else 0)
      ≡ length (serialize_extended_association_id_juniper (record { color = c; endpoint = a }))
unfolding serialize_extended_association_id_juniper len_association
juniper_length c invalid h = elim h [ ]
juniper_length c (v4 b) h = association_length c 0xffe3 (v4 b) h
juniper_length c (v6 b z) h = elim h [ ]

length-put16_all : (vs : List ℕ) → length (put16_all vs) ≡ 2 * length vs
unfolding put16_all put16
length-put16_all [] = refl
length-put16_all (v ∷ vs) = omega (arith, length-put16_all vs)

types_length :
    (types : List ℕ)
    → 2 * length types ≤ max_value
    → len_assoc_type_list types ≡ length (serialize_assoc_type_list types)
unfolding len_assoc_type_list serialize_assoc_type_list
types_length types small =
    let n = u16 (u16 (length types) * 2) in
    rw (length-framed 0x23 n (put16_all types ++ replicate (padding_of n) 0))
      (ground (arith, padded_tail (put16_all types) (padding_of n), length-put16_all types))

pub candidate_length :
    (t : CandidatePathIdentifier) (typ : ℕ)
    → 32 ≡ length (serialize_candidate_path_identifier t typ)
unfolding serialize_candidate_path_identifier
candidate_length t typ =
    let b = originator_bytes t.originator_addr in
    let v =
      t.protocol_origin ∷ 0 ∷ 0 ∷ 0 ∷ (put32 t.originator_asn ++ (b ++ put32 t.discriminator)) in
    sym (
      length-framed typ 28 v
      ∙ (unfold put32 in
          omega (
            arith,
            length-append b (put32 t.discriminator),
            length-originator_bytes t.originator_addr,
          )))

unknown_length :
    (t : UnknownTlv)
    → length t.value ≡ t.len
    → t.len ≤ max_value
    → len_unknown t ≡ length (serialize_unknown t)
unfolding len_unknown serialize_unknown
unknown_length t h small =
    rw (length-framed t.typ t.len (t.value ++ replicate (padding_of t.len) 0))
      (ground (arith, padded_tail t.value (padding_of t.len)))

nested_length :
    (psts : List ℕ) (subs : Tlvs)
    → length psts ≤ 255
    → len_all subs ≡ length (serialize_all subs)
    → length (serialize_all subs) ≤ 65000
    → len (path_setup_type_capability psts subs)
      ≡ length (serialize (path_setup_type_capability psts subs))
unfolding len serialize pst_count padded_pst_length padded_length
nested_length psts subs few lens small =
    let P = padded_pst_length psts in
    let types = copy_into P (take (pst_count psts) psts) in
    rw
      (length-framed 0x22 (u16 (4 + P + len_all subs))
        (0 ∷ 0 ∷ 0 ∷ pst_count psts ∷ (types ++ serialize_all subs)))
      (ground (
        arith,
        length-append types (serialize_all subs),
        length-copy_into P (take (pst_count psts) psts),
      ))

rest_small :
    (t : Tlv) (ts : Tlvs)
    → length (serialize_all (cons t ts)) < 65536
    → length (serialize_all ts) < 65536
unfolding serialize_all
rest_small t ts small = omega (arith, length-append (serialize t) (serialize_all ts))

len_all_step :
    (t : Tlv) (ts : Tlvs)
    → length (serialize_all (cons t ts)) < 65536
    → len t ≡ length (serialize t)
    → len_all ts ≡ length (serialize_all ts)
    → len_all (cons t ts) ≡ length (serialize_all (cons t ts))
unfolding serialize_all len_all
len_all_step t ts small e es = omega (arith, length-append (serialize t) (serialize_all ts))

-- A nested sequence is shorter than the TLV that holds it.
pub nested_shorter :
    (psts : List ℕ) (subs : Tlvs)
    → 4 + length (serialize_all subs) ≤ length (serialize (path_setup_type_capability psts subs))
unfolding serialize
nested_shorter psts subs =
    let P = padded_pst_length psts in
    let types = copy_into P (take (pst_count psts) psts) in
    rw
      (length-framed 0x22 (u16 (4 + P + len_all subs))
        (0 ∷ 0 ∷ 0 ∷ pst_count psts ∷ (types ++ serialize_all subs)))
      (omega (arith, length-append types (serialize_all subs)))

mutual
  unfolding len len_all serialize serialize_all serialize_extended_association_id

  len_counts : (t : Tlv) → IsWellFormed t → len t ≡ length (serialize t)
  len_counts (vendor_information t) h = vendor_length t h.1
  len_counts (stateful_pce_capability t) h = refl
  len_counts (symbolic_path_name name) h = name_length name h.1
  len_counts (ipv4_lsp_identifiers t) h = ipv4_length t
  len_counts (ipv6_lsp_identifiers t) h = ipv6_length t
  len_counts (lsp_db_version v) h = refl
  len_counts (sr_pce_capability t) h = refl
  len_counts (srv6_pce_capability b) h = refl
  len_counts (multipath_capability t) h = refl
  len_counts (path_setup_type p) h = refl
  len_counts (extended_association_id t) h = association_length t.color 0x1f t.endpoint h.1
  len_counts (extended_association_id_juniper t) h = juniper_length t.color t.endpoint h.1
  len_counts (path_setup_type_capability psts subs) h =
      nested_length psts subs h.0 (len_all_counts subs h.1 (omega (arith, h.2))) h.2
  len_counts (assoc_type_list types) h = types_length types h.1
  len_counts (candidate_path_identifier t) h = candidate_length t 0x39
  len_counts (candidate_path_identifier_juniper t) h = candidate_length t 0xffe4
  len_counts (candidate_path_preference p) h = refl
  len_counts (candidate_path_preference_juniper p) h = refl
  len_counts (color c) h = refl
  len_counts (unknown t) h = unknown_length t h.2 h.3

  len_all_counts :
      (ts : Tlvs)
      → AllWellFormed ts
      → length (serialize_all ts) < 65536
      → len_all ts ≡ length (serialize_all ts)
  len_all_counts nil h small = refl
  len_all_counts (cons t ts) h small =
      len_all_step t ts small (len_counts t h.0) (len_all_counts ts h.1 (rest_small t ts small))

-- `Len()` is the number of bytes that `Serialize()` writes, for every TLV whose fields fit the wire.
pub len-length : (t : Tlv) → IsWellFormed t → len t ≡ length (serialize t)
len-length t h = len_counts t h

pub len_all-length :
    (ts : Tlvs)
    → AllWellFormed ts
    → length (serialize_all ts) < 65536
    → len_all ts ≡ length (serialize_all ts)
len_all-length ts h small = len_all_counts ts h small
