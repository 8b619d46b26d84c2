-- ===== src/Pcep/Tlv/LeafEnds.antt =====
-- The decoders of the single TLVs of pkg/packet/pcep/tlv.go end on every input.
use pce_testing.Base.{
  ℕ, ◌+◌, ◌%◌, ◌<◌, true, false, not, List, arith, Result, ok, Ends, Ends-of_ne, >>=-Ends,
  guarded-Ends, ltb, leb, ◌==◌, length, drop, length-drop,
}
use pce_testing.Base.Bytes.{index, slice, read16, read32}
use pce_testing.Base.Reads.{
  read16-Ends, read32-Ends, read64-Ends, index-Ends, slice-Ends, read16_at-Ends, read32_at-Ends,
}
use pce_testing.Pcep.Wire.{TlvError, odd_value_length, padded_length}
use pce_testing.Pcep.Tlv.Types.{Tlv}
use pce_testing.Pcep.Tlv.Read.{
  read16_all, tlv_value, decode_vendor_information, decode_stateful_pce_capability,
  decode_symbolic_path_name, decode_ipv4_lsp_identifiers, decode_ipv6_lsp_identifiers,
  decode_lsp_db_version, decode_sr_pce_capability, decode_srv6_pce_capability,
  decode_multipath_capability, decode_path_setup_type, endpoint_bytes,
  decode_extended_association_id, decode_extended_association_id_juniper, decode_assoc_type_list,
  decode_candidate_path_identifier, decode_candidate_path_preference, decode_color, decode_unknown,
}
use pce_testing.Pcep.Tlv.Sequence.{decode_path_setup_type_capability}
use pce_testing.Pcep.Tlv.Ends.{
  at_least_four-Ends, fixed-Ends, returns-Ends, tlv_value-Ends, tlv_value_bound,
}

pub vendor_information-Ends : (bytes : List ℕ) → Ends (decode_vendor_information bytes)
unfolding decode_vendor_information
vendor_information-Ends bytes =
    at_least_four-Ends bytes true _ _ (λ v h. returns-Ends (read32 v) _ (read32-Ends TlvError v h))

pub stateful_pce_capability-Ends : (bytes : List ℕ) → Ends (decode_stateful_pce_capability bytes)
unfolding decode_stateful_pce_capability
stateful_pce_capability-Ends bytes =
    fixed-Ends bytes 4 _ (λ v h. returns-Ends (read32 v) _ (read32-Ends TlvError v (omega arith)))

pub symbolic_path_name-Ends : (bytes : List ℕ) → Ends (decode_symbolic_path_name bytes)
unfolding decode_symbolic_path_name
symbolic_path_name-Ends bytes =
    >>=-Ends (tlv_value bytes true) _ (tlv_value-Ends bytes true)
      (λ v e. guarded-Ends _ _ (ok v) (λ h. tt))

pub ipv4_lsp_identifiers-Ends : (bytes : List ℕ) → Ends (decode_ipv4_lsp_identifiers bytes)
unfolding decode_ipv4_lsp_identifiers
ipv4_lsp_identifiers-Ends bytes = fixed-Ends bytes 16 _ (λ v h.
    >>=-Ends (slice v 0 4) _ (slice-Ends TlvError v 0 4 (omega arith) (omega arith)) (λ a _.
      >>=-Ends (read16 (drop 4 v)) _ (read16_at-Ends TlvError v 4 (omega arith)) (λ b _.
        >>=-Ends (read16 (drop 6 v)) _ (read16_at-Ends TlvError v 6 (omega arith)) (λ c _.
          >>=-Ends (read32 (drop 8 v)) _ (read32_at-Ends TlvError v 8 (omega arith)) (λ d _.
            returns-Ends (slice v 12 16) _
              (slice-Ends TlvError v 12 16 (omega arith) (omega arith)))))))

pub ipv6_lsp_identifiers-Ends : (bytes : List ℕ) → Ends (decode_ipv6_lsp_identifiers bytes)
unfolding decode_ipv6_lsp_identifiers
ipv6_lsp_identifiers-Ends bytes = fixed-Ends bytes 52 _ (λ v h.
    >>=-Ends (slice v 0 16) _ (slice-Ends TlvError v 0 16 (omega arith) (omega arith)) (λ a _.
      >>=-Ends (read16 (drop 16 v)) _ (read16_at-Ends TlvError v 16 (omega arith)) (λ b _.
        >>=-Ends (read16 (drop 18 v)) _ (read16_at-Ends TlvError v 18 (omega arith)) (λ c _.
          >>=-Ends (slice v 20 36) _ (slice-Ends TlvError v 20 36 (omega arith) (omega arith))
            (λ d _.
              returns-Ends (slice v 36 52) _
                (slice-Ends TlvError v 36 52 (omega arith) (omega arith)))))))

pub lsp_db_version-Ends : (bytes : List ℕ) → Ends (decode_lsp_db_version bytes)
unfolding decode_lsp_db_version
lsp_db_version-Ends bytes = fixed-Ends bytes 8 _ (λ v h. read64-Ends TlvError v (omega arith))

pub sr_pce_capability-Ends : (bytes : List ℕ) → Ends (decode_sr_pce_capability bytes)
unfolding decode_sr_pce_capability
sr_pce_capability-Ends bytes = fixed-Ends bytes 4 _ (λ v h.
    >>=-Ends (index v 0) _ (index-Ends TlvError v 0 (omega arith))
      (λ a _. returns-Ends (index v 1) _ (index-Ends TlvError v 1 (omega arith))))

pub srv6_pce_capability-Ends : (bytes : List ℕ) → Ends (decode_srv6_pce_capability bytes)
unfolding decode_srv6_pce_capability
srv6_pce_capability-Ends bytes =
    at_least_four-Ends bytes false _ _
      (λ v h. returns-Ends (read16 (drop 2 v)) _ (read16_at-Ends TlvError v 2 (omega arith)))

pub multipath_capability-Ends : (bytes : List ℕ) → Ends (decode_multipath_capability bytes)
unfolding decode_multipath_capability
multipath_capability-Ends bytes = fixed-Ends bytes 4 _ (λ v h.
    >>=-Ends (read16 v) _ (read16-Ends TlvError v (omega arith))
      (λ a _. returns-Ends (read16 (drop 2 v)) _ (read16_at-Ends TlvError v 2 (omega arith))))

pub path_setup_type-Ends : (bytes : List ℕ) → Ends (decode_path_setup_type bytes)
unfolding decode_path_setup_type
path_setup_type-Ends bytes = fixed-Ends bytes 4 _ (λ v h. index-Ends TlvError v 3 (omega arith))

endpoint_bytes-Ends : (v : List ℕ) → Ends (endpoint_bytes v)
unfolding endpoint_bytes
endpoint_bytes-Ends v = Ends-of_ne _ (λ h. ground arith) (λ h. ground arith)

pub extended_association_id-Ends : (bytes : List ℕ) → Ends (decode_extended_association_id bytes)
unfolding decode_extended_association_id
extended_association_id-Ends bytes = at_least_four-Ends bytes false _ _ (λ v h.
    >>=-Ends (read32 v) _ (read32-Ends TlvError v h)
      (λ c _. returns-Ends (endpoint_bytes v) _ (endpoint_bytes-Ends v)))

pub extended_association_id_juniper-Ends :
    (bytes : List ℕ) → Ends (decode_extended_association_id_juniper bytes)
unfolding decode_extended_association_id_juniper
extended_association_id_juniper-Ends bytes =
    fixed-Ends bytes 8 _ (λ v h. extended_association_id-Ends bytes)

pub assoc_type_list-Ends : (bytes : List ℕ) → Ends (decode_assoc_type_list bytes)
unfolding decode_assoc_type_list
assoc_type_list-Ends bytes =
    >>=-Ends (tlv_value bytes true) _ (tlv_value-Ends bytes true)
      (λ v e. guarded-Ends (length v % 2 == 0) odd_value_length (ok (read16_all v)) (λ h. tt))

pub candidate_path_identifier-Ends :
    (bytes : List ℕ) → Ends (decode_candidate_path_identifier bytes)
unfolding decode_candidate_path_identifier
candidate_path_identifier-Ends bytes = fixed-Ends bytes 28 _ (λ v h.
    >>=-Ends (index v 0) _ (index-Ends TlvError v 0 (omega arith)) (λ a _.
      >>=-Ends (read32 (drop 4 v)) _ (read32_at-Ends TlvError v 4 (omega arith)) (λ b _.
        >>=-Ends (slice v 8 24) _ (slice-Ends TlvError v 8 24 (omega arith) (omega arith)) (λ c _.
          returns-Ends (read32 (drop 24 v)) _ (read32_at-Ends TlvError v 24 (omega arith))))))

pub candidate_path_preference-Ends :
    (bytes : List ℕ) → Ends (decode_candidate_path_preference bytes)
unfolding decode_candidate_path_preference
candidate_path_preference-Ends bytes =
    fixed-Ends bytes 4 _ (λ v h. read32-Ends TlvError v (omega arith))

pub color-Ends : (bytes : List ℕ) → Ends (decode_color bytes)
unfolding decode_color
color-Ends bytes = fixed-Ends bytes 4 _ (λ v h. read32-Ends TlvError v (omega arith))

pub unknown-Ends : (bytes : List ℕ) → Ends (decode_unknown bytes)
unfolding decode_unknown
unknown-Ends bytes = >>=-Ends (tlv_value bytes true) _ (tlv_value-Ends bytes true) (λ v e.
    returns-Ends (read16 bytes) _
      (read16-Ends TlvError bytes (omega (arith, tlv_value_bound bytes true v e))))

-- The sequence inside a capability TLV is shorter than the TLV, by eight bytes at least.
pub path_setup_type_capability-Ends :
    (sub : List ℕ → Result TlvError (List Tlv)) (bytes : List ℕ)
    → ((inner : List ℕ) → length inner < length bytes → Ends (sub inner))
    → Ends (decode_path_setup_type_capability sub bytes)
unfolding decode_path_setup_type_capability
path_setup_type_capability-Ends sub bytes inner_ends =
    >>=-Ends (tlv_value bytes false) _ (tlv_value-Ends bytes false) (λ v e.
      guarded-Ends (not (ltb (length v) 4)) _ _ (λ four.
        >>=-Ends (index v 3) _ (index-Ends TlvError v 3 (ground arith)) (λ n _.
          guarded-Ends (leb (4 + n) (length v)) _ _ (λ fits.
            guarded-Ends (leb (4 + padded_length n 4) (length v)) _ _ (λ padded.
              >>=-Ends (slice v 4 (4 + n)) _
                (slice-Ends TlvError v 4 (4 + n) (omega arith) (ground arith))
                (λ psts _. returns-Ends (sub (drop (4 + padded_length n 4) v)) _ (
                  inner_ends (drop (4 + padded_length n 4) v) (
                    omega (
                      arith,
                      length-drop (4 + padded_length n 4) v,
                      tlv_value_bound bytes false v e,
                    )))))))))
