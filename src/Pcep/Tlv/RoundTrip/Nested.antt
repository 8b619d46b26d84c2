-- ===== src/Pcep/Tlv/RoundTrip/Nested.antt =====
-- A sequence of TLVs is read back once each of them is, and so is the TLV of pkg/packet/pcep/tlv.go
-- that holds a sequence.
use mathlib.Core.List.{append-nil, append_assoc}
use pce_testing.Base.{
  ℕ, zero, suc, ◌+◌, ◌-◌, ◌%◌, ◌≤◌, ◌<◌, ◌≡◌, refl, sym, ap, ◌∙◌, true, false, List, [], ◌∷◌, ◌++◌,
  arith, Result, ok, ◌>>=◌, le→ltb, leb, length, take, drop, replicate, length-append, drop-append,
  take_all, length-replicate,
}
use pce_testing.Base.Bytes.{slice, index, put16, u16}
use pce_testing.Pcep.Wire.{TlvError, padded_length}
use pce_testing.Pcep.Tlv.Types.{Tlv, Tlvs, nil, cons, to_list, of_list, path_setup_type_capability}
use pce_testing.Pcep.Tlv.Write.{copy_into, pst_count, padded_pst_length}
use pce_testing.Pcep.Tlv.Serialize.{serialize, serialize_all, len_all}
use pce_testing.Pcep.Tlv.Sequence.{
  decode_known, decode_next, decode_tlv_sequence, decode_path_setup_type_capability,
}
use pce_testing.Pcep.Tlv.RoundTrip.Frame.{unpadded, skipped, tlv_value_put, decode_next_framed}
use pce_testing.Pcep.Tlv.RoundTrip.Reads.{Sub, Reads, unpadded-Reads}
use pce_testing.Pcep.Tlv.RoundTrip.Fields.{copy_into_padded, slice_part, framed_eq}

le→leb : (a b : ℕ) → a ≤ b → leb a b ≡ true
le→leb a b h = ground arith

abbrev pub AllReads : Sub → Tlvs → Type 0
AllReads sub nil = Unit {0}
AllReads sub (cons t ts) = Reads sub t × AllReads sub ts

sequence_step :
    (fuel : ℕ) (dec : List ℕ → ℕ → Result TlvError Tlv) (bytes rest : List ℕ) (t : Tlv)
    → 4 ≤ length bytes
    → decode_next dec bytes ≡ ok (t, rest)
    → decode_tlv_sequence (suc fuel) dec bytes
      ≡ (decode_tlv_sequence fuel dec rest >>= λ r. ok (t ∷ r))
unfolding decode_tlv_sequence
sequence_step fuel dec [] rest t h e = absurd (omega arith)
sequence_step fuel dec (b ∷ bs) rest t h e = rw e refl

module _ (sub : Sub) where
  written_first :
      (t : Tlv) (rest : List ℕ) (r : Reads sub t)
      → serialize t ++ rest ≡ unpadded r.typ r.value ++ (replicate r.pad 0 ++ rest)
  written_first t rest r =
      ap (λ s. s ++ rest) r.writes ∙ append_assoc (unpadded r.typ r.value) (replicate r.pad 0) rest

  length-written_first :
      (t : Tlv) (r : Reads sub t) → length (serialize t) ≡ skipped (length r.value)
  unfolding put16
  length-written_first t r = rw r.writes (
      omega (
        arith,
        length-append (unpadded r.typ r.value) (replicate r.pad 0),
        length-replicate {A = ℕ} r.pad 0,
        r.aligned,
      ))

  Reads-first :
      (t : Tlv) (rest : List ℕ)
      → Reads sub t
      → decode_next (decode_known sub) (serialize t ++ rest) ≡ ok (t, rest)
  Reads-first t rest r = rw (written_first t rest r) (
      decode_next_framed r.typ r.value r.pad rest (decode_known sub) t r.small_typ r.small r.aligned
        r.reads)

  pub sequence_put :
      (ts : Tlvs) (fuel : ℕ)
      → AllReads sub ts
      → length (serialize_all ts) ≤ fuel
      → decode_tlv_sequence fuel (decode_known sub) (serialize_all ts) ≡ ok (to_list ts)
  unfolding serialize_all
  sequence_put nil fuel all h = unfold decode_tlv_sequence in refl
  sequence_put (cons t ts) zero all h =
      absurd (
        omega (arith, length-append (serialize t) (serialize_all ts), length-written_first t all.0))
  sequence_put (cons t ts) (suc fuel) all h =
      sequence_step fuel (decode_known sub) (serialize t ++ serialize_all ts) (serialize_all ts) t
        (omega
          (arith, length-append (serialize t) (serialize_all ts), length-written_first t all.0))
        (Reads-first t (serialize_all ts) all.0)
      ∙ rw
          (sequence_put ts fuel all.1 (
            omega (
              arith,
              length-append (serialize t) (serialize_all ts),
              length-written_first t all.0,
              h,
            )))
          refl

  pub AllReads-aligned : (ts : Tlvs) → AllReads sub ts → length (serialize_all ts) % 4 ≡ 0
  unfolding serialize_all
  AllReads-aligned nil all = refl
  AllReads-aligned (cons t ts) all = omega (
    arith,
    length-append (serialize t) (serialize_all ts),
    length-written_first t all.0,
    AllReads-aligned ts all.1,
  )

-- The sequence behind the path setup types.
module _ (psts : List ℕ) (subs : List ℕ) (pad : ℕ) where
  abbrev nested_value : List ℕ
  nested_value = 0 ∷ 0 ∷ 0 ∷ length psts ∷ ((psts ++ replicate pad 0) ++ subs)

  length-nested_value : length nested_value ≡ 4 + length psts + pad + length subs
  length-nested_value = omega (
    arith,
    length-append (psts ++ replicate pad 0) subs,
    length-append psts (replicate pad 0),
    length-replicate {A = ℕ} pad 0,
  )

  psts_at : slice {E = TlvError} nested_value 4 (4 + length psts) ≡ ok psts
  psts_at =
      ap (λ v. slice {E = TlvError} (0 ∷ 0 ∷ 0 ∷ length psts ∷ v) 4 (4 + length psts))
        (append_assoc psts (replicate pad 0) subs)
      ∙ slice_part (0 ∷ 0 ∷ 0 ∷ length psts ∷ []) psts (replicate pad 0 ++ subs) 4 (4 + length psts)
          refl refl

  subs_at : (n : ℕ) → n ≡ 4 + length psts + pad → drop n nested_value ≡ subs
  subs_at n e =
      drop-append (0 ∷ 0 ∷ 0 ∷ length psts ∷ (psts ++ replicate pad 0)) subs n
        (omega (arith, length-append psts (replicate pad 0), length-replicate {A = ℕ} pad 0))

  decode_nested_put :
      (sub : Sub) (ts : Tlvs)
      → padded_length (length psts) 4 ≡ length psts + pad
      → length nested_value ≤ 65535
      → sub subs ≡ ok (to_list ts)
      → decode_path_setup_type_capability sub (unpadded 0x22 nested_value)
        ≡ ok (path_setup_type_capability psts (of_list (to_list ts)))
  unfolding decode_path_setup_type_capability
  decode_nested_put sub ts padded small reads =
      let len = length-nested_value in
      rw (tlv_value_put 0x22 nested_value false (omega arith)) (
        rw (le→ltb (length nested_value) 4 (omega arith)) (
          unfold index in
          rw (le→leb (4 + length psts) (length nested_value) (omega (arith, len))) (
            rw
              (le→leb (4 + padded_length (length psts) 4) (length nested_value)
                (omega (arith, len, padded)))
              (rw psts_at (
                rw (subs_at (4 + padded_length (length psts) 4) (omega (arith, padded)))
                  (rw reads refl))))))

pub of_list-to_list : (ts : Tlvs) → of_list (to_list ts) ≡ ts
of_list-to_list nil = refl
of_list-to_list (cons t ts) = ap (cons t) (of_list-to_list ts)

padding_behind : List ℕ → ℕ
unfolding padded_length
padding_behind psts = padded_length (length psts) 4 - length psts

padding_behind_lem :
    (psts : List ℕ)
    → (padded_length (length psts) 4 ≡ length psts + padding_behind psts)
      × ((length psts + padding_behind psts) % 4 ≡ 0)
      × (padding_behind psts < 4)
unfolding padding_behind padded_length
padding_behind_lem psts = ground arith

module _ (psts : List ℕ) (subs : Tlvs) (few : length psts ≤ 255) where
  abbrev nested : List ℕ
  nested = nested_value psts (serialize_all subs) (padding_behind psts)

  count_kept : pst_count psts ≡ length psts
  unfolding pst_count
  count_kept = ground arith

  padded_kept : padded_pst_length psts ≡ length psts + padding_behind psts
  unfolding padded_pst_length
  padded_kept = let (a, b, c) = padding_behind_lem psts in rw (count_kept, a) (omega (arith, c))

  types_written :
      copy_into (padded_pst_length psts) (take (pst_count psts) psts)
      ≡ psts ++ replicate (padding_behind psts) 0
  types_written =
      rw (count_kept, padded_kept, take_all (length psts) psts (omega arith))
        (copy_into_padded (length psts + padding_behind psts) psts (omega arith)
          ∙ ap (λ k. psts ++ replicate k 0) (omega arith))

  nested_writes :
      len_all subs ≡ length (serialize_all subs)
      → length (serialize_all subs) ≤ 65000
      → serialize (path_setup_type_capability psts subs) ≡ unpadded 0x22 nested ++ []
  nested_writes lens small =
      let (a, b, c) = padding_behind_lem psts in
      let len = length-nested_value psts (serialize_all subs) (padding_behind psts) in
      let n : u16 (4 + padded_pst_length psts + len_all subs) ≡ length nested =
        omega (arith, padded_kept, lens, len, c) in
      unfold serialize in
      rw (n, types_written, count_kept)
        (framed_eq 0x22 (length nested) nested ∙ sym (append-nil (unpadded 0x22 nested)))

  pub path_setup_type_capability-Reads :
      (sub : Sub)
      → len_all subs ≡ length (serialize_all subs)
      → length (serialize_all subs) ≤ 65000
      → length (serialize_all subs) % 4 ≡ 0
      → sub (serialize_all subs) ≡ ok (to_list subs)
      → Reads sub (path_setup_type_capability psts subs)
  path_setup_type_capability-Reads sub lens small aligned reads =
      let (a, b, c) = padding_behind_lem psts in
      let len = length-nested_value psts (serialize_all subs) (padding_behind psts) in
      unpadded-Reads sub (path_setup_type_capability psts subs) 0x22 nested (length nested)
        (nested_writes lens small) (omega arith) refl (omega (arith, len, c))
        (omega (arith, len, b, aligned))
        (unfold decode_known in
          decode_nested_put psts (serialize_all subs) (padding_behind psts) sub subs a
            (omega (arith, len, c)) reads
          ∙ ap (λ ts. ok (path_setup_type_capability psts ts)) (of_list-to_list subs))
