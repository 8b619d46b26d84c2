-- ===== src/Pcep/Tlv/RoundTrip/Leaf.antt =====
-- Each TLV of pkg/packet/pcep/tlv.go that holds no further TLV is written as a header, a value and a
-- padding, and its decoder reads it back.
use pce_testing.Base.{
  ℕ, ◌<◌, ◌^◌, ◌≡◌, refl, ap, Bool, true, false, List, [], ◌∷◌, ◌++◌, arith, ok, if◌then◌else◌,
}
use pce_testing.Base.Bytes.{index, read16, read32, read64, put32, put64, IsU32}
use pce_testing.Pcep.Wire.{TlvError}
use pce_testing.Pcep.Tlv.Types.{
  color, candidate_path_preference, candidate_path_preference_juniper, path_setup_type,
  lsp_db_version, srv6_pce_capability,
}
use pce_testing.Pcep.Tlv.Read.{
  fixed_value, decode_color, decode_candidate_path_preference, decode_path_setup_type,
  decode_lsp_db_version, decode_srv6_pce_capability,
}
use pce_testing.Pcep.Tlv.Serialize.{serialize}
use pce_testing.Pcep.Tlv.Sequence.{decode_known}
use pce_testing.Pcep.Tlv.RoundTrip.Frame.{unpadded, tlv_value_put, fixed_value_put}
use pce_testing.Pcep.Tlv.RoundTrip.Reads.{Sub, Reads, unpadded-Reads}

-- One number of four bytes.
word_value : (v typ : ℕ) → IsU32 v → fixed_value (unpadded typ (put32 v)) 4 ≡ ok (put32 v)
word_value v typ h = fixed_value_put typ (put32 v) 4 (unfold put32 in refl) (omega arith)

word_read : (v : ℕ) → IsU32 v → read32 {E = TlvError} (put32 v) ≡ ok v
unfolding read32 put32
word_read v h = ap ok (omega arith)

decode_color_put : (c : ℕ) → IsU32 c → decode_color (unpadded 0x43 (put32 c)) ≡ ok c
unfolding decode_color
decode_color_put c h = rw (word_value c 0x43 h) (word_read c h)

decode_preference_put :
    (p typ : ℕ) → IsU32 p → decode_candidate_path_preference (unpadded typ (put32 p)) ≡ ok p
unfolding decode_candidate_path_preference
decode_preference_put p typ h = rw (word_value p typ h) (word_read p h)

decode_path_setup_type_put :
    (p : ℕ) → decode_path_setup_type (unpadded 0x1c (0 ∷ 0 ∷ 0 ∷ p ∷ [])) ≡ ok p
unfolding decode_path_setup_type
decode_path_setup_type_put p =
    rw (fixed_value_put 0x1c (0 ∷ 0 ∷ 0 ∷ p ∷ []) 4 refl (omega arith)) (unfold index in refl)

decode_lsp_db_version_put :
    (v : ℕ) → v < 2 ^ 64 → decode_lsp_db_version (unpadded 0x17 (put64 v)) ≡ ok v
unfolding decode_lsp_db_version
decode_lsp_db_version_put v h =
    rw (fixed_value_put 0x17 (put64 v) 8 (unfold put64 in refl) (omega arith))
      (unfold read64 put64 in ap ok (omega arith))

abbrev flag_bytes : Bool → List ℕ
flag_bytes b = 0 ∷ 0 ∷ 0 ∷ (if b then 2 else 0) ∷ []

decode_srv6_put : (b : Bool) → decode_srv6_pce_capability (unpadded 0x1b (flag_bytes b)) ≡ ok b
unfolding decode_srv6_pce_capability
decode_srv6_put true =
    rw (tlv_value_put 0x1b (flag_bytes true) false (omega arith)) (unfold read16 in refl)
decode_srv6_put false =
    rw (tlv_value_put 0x1b (flag_bytes false) false (omega arith)) (unfold read16 in refl)

srv6_writes : (b : Bool) → serialize (srv6_pce_capability b) ≡ unpadded 0x1b (flag_bytes b) ++ []
unfolding serialize
srv6_writes true = refl
srv6_writes false = refl

module _ (sub : Sub) where
  pub color-Reads : (c : ℕ) → IsU32 c → Reads sub (color c)
  color-Reads c h =
      unpadded-Reads sub (color c) 0x43 (put32 c) 4 (unfold serialize in refl) (omega arith)
        (unfold put32 in refl) (omega arith) (omega arith)
        (unfold decode_known in rw (decode_color_put c h))

  pub preference-Reads : (p : ℕ) → IsU32 p → Reads sub (candidate_path_preference p)
  preference-Reads p h =
      unpadded-Reads sub (candidate_path_preference p) 0x3b (put32 p) 4 (unfold serialize in refl)
        (omega arith) (unfold put32 in refl) (omega arith) (omega arith)
        (unfold decode_known in rw (decode_preference_put p 0x3b h))

  pub preference_juniper-Reads : (p : ℕ) → IsU32 p → Reads sub (candidate_path_preference_juniper p)
  preference_juniper-Reads p h =
      unpadded-Reads sub (candidate_path_preference_juniper p) 0xffe5 (put32 p) 4
        (unfold serialize in refl) (omega arith) (unfold put32 in refl) (omega arith) (omega arith)
        (unfold decode_known in rw (decode_preference_put p 0xffe5 h))

  pub path_setup_type-Reads : (p : ℕ) → Reads sub (path_setup_type p)
  path_setup_type-Reads p =
      unpadded-Reads sub (path_setup_type p) 0x1c (0 ∷ 0 ∷ 0 ∷ p ∷ []) 4 (unfold serialize in refl)
        (omega arith) refl (omega arith) (omega arith)
        (unfold decode_known in rw (decode_path_setup_type_put p))

  pub lsp_db_version-Reads : (v : ℕ) → v < 2 ^ 64 → Reads sub (lsp_db_version v)
  lsp_db_version-Reads v h =
      unpadded-Reads sub (lsp_db_version v) 0x17 (put64 v) 8 (unfold serialize in refl)
        (omega arith) (unfold put64 in refl) (omega arith) (omega arith)
        (unfold decode_known in rw (decode_lsp_db_version_put v h))

  pub srv6_pce_capability-Reads : (b : Bool) → Reads sub (srv6_pce_capability b)
  srv6_pce_capability-Reads b =
      unpadded-Reads sub (srv6_pce_capability b) 0x1b (flag_bytes b) 4 (srv6_writes b) (omega arith)
        refl (omega arith) (omega arith) (unfold decode_known in rw (decode_srv6_put b))
