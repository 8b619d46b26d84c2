-- ===== src/Pcep/Tlv/RoundTrip/Values.antt =====
-- The TLVs of pkg/packet/pcep/tlv.go with names, addresses, lists or raw bytes: each is read back
-- from what its serializer writes.
use pce_testing.Base.{
  ℕ, ◌*◌, ◌/◌, ◌%◌, ◌≤◌, ◌≡◌, refl, sym, ap, ◌∙◌, true, not, List, [], ◌∷◌, ◌++◌, arith, ok, ◌>>=◌,
  ◌==◌, length, replicate, all_of, All,
}
use pce_testing.Base.Bytes.{be16, put16, put16_read, IsU16}
use pce_testing.Net.{utf8_valid}
use pce_testing.Pcep.Wire.{TlvError}
use pce_testing.Pcep.Tlv.Types.{UnknownTlv, Tlv, symbolic_path_name, assoc_type_list, unknown}
use pce_testing.Pcep.Tlv.Read.{
  decode_symbolic_path_name, decode_assoc_type_list, decode_unknown, read16_all,
}
use pce_testing.Pcep.Tlv.Write.{
  framed, padding_of, put16_all, serialize_symbolic_path_name, serialize_assoc_type_list,
  serialize_unknown,
}
use pce_testing.Pcep.Tlv.Serialize.{serialize}
use pce_testing.Pcep.Tlv.Sequence.{decode_known}
use pce_testing.Pcep.Tlv.RoundTrip.WellFormed.{known_types, max_value}
use pce_testing.Pcep.Tlv.RoundTrip.Frame.{unpadded, tlv_value_put}
use pce_testing.Pcep.Tlv.RoundTrip.Reads.{Sub, Reads}
use pce_testing.Pcep.Tlv.RoundTrip.Fields.{framed_padded, padding_aligned}

-- A TLV whose value is padded to the alignment.
pub padded-Reads :
    (sub : Sub) (t : Tlv) (typ : ℕ) (value : List ℕ)
    → serialize t ≡ framed typ (length value) (value ++ replicate (padding_of (length value)) 0)
    → IsU16 typ
    → IsU16 (length value)
    → decode_known sub (unpadded typ value) typ ≡ ok t
    → Reads sub t
padded-Reads sub t typ value writes small_typ small reads = record {
  typ = typ;
  value = value;
  pad = padding_of (length value);
  writes = writes ∙ framed_padded typ value (padding_of (length value));
  small_typ = small_typ;
  small = small;
  aligned = padding_aligned (length value);
  reads = reads;
}

decode_symbolic_put :
    (name : List ℕ)
    → utf8_valid name ≡ true
    → length name ≤ max_value
    → decode_symbolic_path_name (unpadded 0x11 name) ≡ ok name
unfolding decode_symbolic_path_name
decode_symbolic_put name valid small =
    rw (tlv_value_put 0x11 name true (omega arith)) (rw valid refl)

decode_unknown_put :
    (t : UnknownTlv)
    → IsU16 t.typ
    → length t.value ≡ t.len
    → t.len ≤ max_value
    → decode_unknown (unpadded t.typ t.value) ≡ ok t
unfolding decode_unknown
decode_unknown_put t typ len small = rw (tlv_value_put t.typ t.value true (omega arith)) (
    rw (put16_read {E = TlvError} t.typ (put16 (length t.value) ++ t.value) typ)
      (λ i. ok (record { typ = t.typ; len = len i; value = t.value })))

read16_all-put16_all : (vs : List ℕ) → All IsU16 vs → read16_all (put16_all vs) ≡ vs
unfolding read16_all put16_all put16
read16_all-put16_all [] h = refl
read16_all-put16_all (v ∷ vs) h =
    let same : be16 (v / 256 % 256) (v % 256) ≡ v = omega (arith, h.0) in
    λ i. same i ∷ read16_all-put16_all vs h.1 i

length-put16_all : (vs : List ℕ) → length (put16_all vs) ≡ 2 * length vs
unfolding put16_all put16
length-put16_all [] = refl
length-put16_all (v ∷ vs) = omega (arith, length-put16_all vs)

decode_assoc_type_list_put :
    (types : List ℕ)
    → All IsU16 types
    → 2 * length types ≤ max_value
    → decode_assoc_type_list (unpadded 0x23 (put16_all types)) ≡ ok types
unfolding decode_assoc_type_list
decode_assoc_type_list_put types h small =
    let len = length-put16_all types in
    rw (tlv_value_put 0x23 (put16_all types) true (omega arith)) (
      rw (let e : (length (put16_all types) % 2 == 0) ≡ true = rw len (ground arith) in e)
        (ap ok (read16_all-put16_all types h)))

-- A type number of no known TLV reaches the last branch.
unknown_chosen :
    (sub : Sub) (bytes : List ℕ) (typ : ℕ)
    → all_of (λ k. not (typ == k)) known_types ≡ true
    → decode_known sub bytes typ ≡ (decode_unknown bytes >>= λ t. ok (unknown t))
unfolding decode_known
unknown_chosen sub bytes typ fresh = ground arith

module _ (sub : Sub) where
  pub symbolic_path_name-Reads :
      (name : List ℕ)
      → utf8_valid name ≡ true
      → length name ≤ max_value
      → Reads sub (symbolic_path_name name)
  symbolic_path_name-Reads name valid small =
      padded-Reads sub (symbolic_path_name name) 0x11 name
        (unfold serialize serialize_symbolic_path_name in
          ap (λ n. framed 0x11 n (name ++ replicate (padding_of (length name)) 0)) (omega arith))
        (omega arith) (omega arith)
        (unfold decode_known in rw (decode_symbolic_put name valid small))

  pub assoc_type_list-Reads :
      (types : List ℕ)
      → All IsU16 types
      → 2 * length types ≤ max_value
      → Reads sub (assoc_type_list types)
  assoc_type_list-Reads types h small =
      padded-Reads sub (assoc_type_list types) 0x23 (put16_all types)
        (unfold serialize serialize_assoc_type_list in
          ap (λ n. framed 0x23 n (put16_all types ++ replicate (padding_of n) 0))
            (omega (arith, length-put16_all types)))
        (omega arith) (omega (arith, length-put16_all types))
        (unfold decode_known in rw (decode_assoc_type_list_put types h small))

  pub unknown-Reads :
      (t : UnknownTlv)
      → IsU16 t.typ
      → all_of (λ k. not (t.typ == k)) known_types ≡ true
      → length t.value ≡ t.len
      → t.len ≤ max_value
      → Reads sub (unknown t)
  unknown-Reads t typ fresh len small =
      padded-Reads sub (unknown t) t.typ t.value
        (unfold serialize serialize_unknown in
          ap (λ n. framed t.typ n (t.value ++ replicate (padding_of n) 0)) (sym len))
        typ (omega arith)
        (unknown_chosen sub (unpadded t.typ t.value) t.typ fresh
          ∙ rw (decode_unknown_put t typ len small) refl)
