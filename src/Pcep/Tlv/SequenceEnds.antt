-- ===== src/Pcep/Tlv/SequenceEnds.antt =====
-- The decoding of a sequence of TLVs in pkg/packet/pcep/tlv.go ends on every input.
use pce_testing.Base.{
  ℕ, zero, suc, ◌+◌, ◌-◌, ◌*◌, ◌/◌, ◌≤◌, ◌<◌, ◌≡◌, ap, Bool, true, false, not, List, [], ◌∷◌, arith,
  Result, ok, stuck, guard, Ends, >>=-Ends, guard-Ends, guarded-Ends, guarded-eq-ok, >>=-eq-ok,
  ok_inj, ltb, ◌==◌, if◌then◌else◌, length, take, drop, length-drop, length-take, all_of,
}
use pce_testing.Base.Bytes.{read16}
use pce_testing.Base.Reads.{read16-Ends, read16_at-Ends}
use pce_testing.Pcep.Wire.{TlvError, invalid_padding, is_zero}
use pce_testing.Pcep.Tlv.Types.{Tlv}
use pce_testing.Pcep.Tlv.Read.{decode_unknown}
use pce_testing.Pcep.Tlv.Sequence.{
  decode_known, decode_next, decode_tlv_sequence, decode_tlv, decode_tlvs, decode_unknown_tlv,
  decode_vendor_tlvs,
}
use pce_testing.Pcep.Tlv.Ends.{returns-Ends}
use pce_testing.Pcep.Tlv.LeafEnds.{
  assoc_type_list-Ends, candidate_path_identifier-Ends, candidate_path_preference-Ends, color-Ends,
  extended_association_id-Ends, extended_association_id_juniper-Ends, ipv4_lsp_identifiers-Ends,
  ipv6_lsp_identifiers-Ends, lsp_db_version-Ends, multipath_capability-Ends, path_setup_type-Ends,
  path_setup_type_capability-Ends, sr_pce_capability-Ends, srv6_pce_capability-Ends,
  stateful_pce_capability-Ends, symbolic_path_name-Ends, unknown-Ends, vendor_information-Ends,
}

if-Ends {ℓ} :
    {A : Type ℓ} (b : Bool) (x y : Result TlvError A) → Ends x → Ends y → Ends (if b then x else y)
if-Ends true x y hx hy = hx
if-Ends false x y hx hy = hy

decode_known-Ends :
    (sub : List ℕ → Result TlvError (List Tlv)) (bytes : List ℕ) (typ : ℕ)
    → ((inner : List ℕ) → length inner < length bytes → Ends (sub inner))
    → Ends (decode_known sub bytes typ)
unfolding decode_known
decode_known-Ends sub bytes typ inner_ends =
    if-Ends (typ == 0x07) _ _ (returns-Ends _ _ (vendor_information-Ends bytes)) (
      if-Ends (typ == 0x10) _ _ (returns-Ends _ _ (stateful_pce_capability-Ends bytes)) (
        if-Ends (typ == 0x11) _ _ (returns-Ends _ _ (symbolic_path_name-Ends bytes)) (
          if-Ends (typ == 0x12) _ _ (returns-Ends _ _ (ipv4_lsp_identifiers-Ends bytes)) (
            if-Ends (typ == 0x13) _ _ (returns-Ends _ _ (ipv6_lsp_identifiers-Ends bytes)) (
              if-Ends (typ == 0x17) _ _ (returns-Ends _ _ (lsp_db_version-Ends bytes)) (
                if-Ends (typ == 0x1a) _ _ (returns-Ends _ _ (sr_pce_capability-Ends bytes)) (
                  if-Ends (typ == 0x1b) _ _ (returns-Ends _ _ (srv6_pce_capability-Ends bytes)) (
                    if-Ends (typ == 0x3c) _ _ (returns-Ends _ _ (multipath_capability-Ends bytes)) (
                      if-Ends (typ == 0x1c) _ _ (returns-Ends _ _ (path_setup_type-Ends bytes)) (
                        if-Ends (typ == 0x1f) _ _
                          (returns-Ends _ _ (extended_association_id-Ends bytes))
                          (if-Ends (typ == 0x22) _ _
                            (path_setup_type_capability-Ends sub bytes inner_ends)
                            (if-Ends (typ == 0x23) _ _
                              (returns-Ends _ _ (assoc_type_list-Ends bytes))
                              (if-Ends (typ == 0x39) _ _
                                (returns-Ends _ _ (candidate_path_identifier-Ends bytes))
                                (if-Ends (typ == 0x3b) _ _
                                  (returns-Ends _ _ (candidate_path_preference-Ends bytes))
                                  (if-Ends (typ == 0x43) _ _ (returns-Ends _ _ (color-Ends bytes)) (
                                    if-Ends (typ == 0xffe3) _ _
                                      (returns-Ends _ _
                                        (extended_association_id_juniper-Ends bytes))
                                      (if-Ends (typ == 0xffe4) _ _
                                        (returns-Ends _ _ (candidate_path_identifier-Ends bytes))
                                        (if-Ends (typ == 0xffe5) _ _
                                          (returns-Ends _ _ (candidate_path_preference-Ends bytes))
                                          (returns-Ends _ _ (unknown-Ends bytes))))))))))))))))))))

-- A decoder that ends on every part of the bytes gives a round that ends.
decode_next-Ends :
    (dec : List ℕ → ℕ → Result TlvError Tlv) (bytes : List ℕ)
    → ((part : List ℕ) (typ : ℕ) → length part ≤ length bytes → Ends (dec part typ))
    → Ends (decode_next dec bytes)
unfolding decode_next
decode_next-Ends dec bytes dec_ends = guarded-Ends (not (ltb (length bytes) 4)) _ _ (λ four.
    >>=-Ends (read16 bytes) _ (read16-Ends TlvError bytes (ground arith)) (λ typ _.
      >>=-Ends (read16 (drop 2 bytes)) _ (read16_at-Ends TlvError bytes 2 (ground arith)) (λ n _.
        guarded-Ends (not (ltb (length bytes) (4 + n))) _ _ (λ fits.
          >>=-Ends (dec (take (4 + n) bytes) typ) _
            (dec_ends (take (4 + n) bytes) typ (omega (arith, length-take (4 + n) bytes)))
            (λ tlv _.
              guarded-Ends (not (ltb (length bytes) ((4 + n + 4 - 1) / 4 * 4))) _ _ (λ padded.
                returns-Ends
                  (guard (all_of is_zero (drop (4 + n) (take ((4 + n + 4 - 1) / 4 * 4) bytes)))
                    invalid_padding)
                  _ (guard-Ends _ _)))))))

-- A round takes four bytes at least.
decode_next_shorter :
    (dec : List ℕ → ℕ → Result TlvError Tlv) (bytes : List ℕ) (t : Tlv) (rest : List ℕ)
    → decode_next dec bytes ≡ ok (t, rest)
    → 4 + length rest ≤ length bytes
unfolding decode_next
decode_next_shorter dec bytes t rest h =
    let (four, h1) = guarded-eq-ok (not (ltb (length bytes) 4)) _ _ h in
    let (typ, e2, h2) = >>=-eq-ok (read16 bytes) _ h1 in
    let (n, e3, h3) = >>=-eq-ok (read16 (drop 2 bytes)) _ h2 in
    let (fits, h4) = guarded-eq-ok (not (ltb (length bytes) (4 + n))) _ _ h3 in
    let (tlv, e5, h5) = >>=-eq-ok (dec (take (4 + n) bytes) typ) _ h4 in
    let (padded, h6) = guarded-eq-ok (not (ltb (length bytes) ((4 + n + 4 - 1) / 4 * 4))) _ _ h5 in
    let (zeros, h7) =
      guarded-eq-ok (all_of is_zero (drop (4 + n) (take ((4 + n + 4 - 1) / 4 * 4) bytes))) _ _ h6 in
    let same : drop ((4 + n + 4 - 1) / 4 * 4) bytes ≡ rest = ap (λ p. p.1) (ok_inj h7) in
    rw (← same) (ground (arith, length-drop ((4 + n + 4 - 1) / 4 * 4) bytes))

sequence-Ends :
    (fuel : ℕ) (dec : List ℕ → ℕ → Result TlvError Tlv) (bytes : List ℕ)
    → ((part : List ℕ) (typ : ℕ) → length part ≤ length bytes → Ends (dec part typ))
    → length bytes ≤ fuel
    → Ends (decode_tlv_sequence fuel dec bytes)
unfolding decode_tlv_sequence
sequence-Ends fuel dec [] dec_ends h = tt
sequence-Ends zero dec (b ∷ bs) dec_ends h = absurd (omega arith)
sequence-Ends (suc fuel) dec (b ∷ bs) dec_ends h =
    >>=-Ends (decode_next dec (b ∷ bs)) _ (decode_next-Ends dec (b ∷ bs) dec_ends) (λ next e.
      let shorter = decode_next_shorter dec (b ∷ bs) next.0 next.1 e in
      returns-Ends (decode_tlv_sequence fuel dec next.1) _ (
        sequence-Ends fuel dec next.1 (λ part typ l. dec_ends part typ (omega (arith, shorter)))
          (omega (arith, shorter))))

decode_tlv-Ends :
    (depth : ℕ) (bytes : List ℕ) (typ : ℕ)
    → length bytes ≤ depth
    → Ends (decode_tlv depth bytes typ)
unfolding decode_tlv
decode_tlv-Ends zero bytes typ h =
    decode_known-Ends (λ sub. stuck) bytes typ (λ inner l. absurd (omega arith))
decode_tlv-Ends (suc depth) bytes typ h =
    decode_known-Ends (λ sub. decode_tlv_sequence (length sub) (decode_tlv depth) sub) bytes typ
      (λ inner l.
        sequence-Ends (length inner) (decode_tlv depth) inner
          (λ part t q. decode_tlv-Ends depth part t (omega arith)) (omega arith))

-- `DecodeTLVs` returns a list of TLVs or an error on every byte sequence: it never faults, and both
-- its loop and the nesting of capability TLVs end.
pub decode_tlvs-Ends : (bytes : List ℕ) → Ends (decode_tlvs bytes)
unfolding decode_tlvs
decode_tlvs-Ends bytes =
    sequence-Ends (length bytes) (decode_tlv (length bytes)) bytes
      (λ part typ l. decode_tlv-Ends (length bytes) part typ l) (omega arith)

-- So does `DecodeVendorTLVs`.
pub decode_vendor_tlvs-Ends : (bytes : List ℕ) → Ends (decode_vendor_tlvs bytes)
unfolding decode_vendor_tlvs decode_unknown_tlv
decode_vendor_tlvs-Ends bytes =
    sequence-Ends (length bytes) decode_unknown_tlv bytes
      (λ part typ l. returns-Ends (decode_unknown part) _ (unknown-Ends part)) (omega arith)
