-- ===== src/Pcep/Tlv/RoundTrip/Flags.antt =====
-- The capability TLVs whose fields are bits of a flag word.
use Prim.Native.Nat.{bit_and}
use pce_testing.Base.{
  ℕ, ◌<◌, ◌≡◌, refl, ap, Bool, true, false, ◌&&◌, ltb, List, [], ◌∷◌, ◌++◌, arith, ok, drop,
}
use pce_testing.Base.Bytes.{index, read16, read32, put16, put32, put16_read, IsU16}
use pce_testing.Base.Bits.{both, both_sound, same}
use pce_testing.Pcep.Wire.{TlvError, is_bit_set, set_bit}
use pce_testing.Pcep.Tlv.Types.{
  SrPceCapability, StatefulPceCapability, MultipathCapability, sr_pce_capability,
  stateful_pce_capability, multipath_capability,
}
use pce_testing.Pcep.Tlv.Read.{
  extract_capabilities, decode_sr_pce_capability, decode_stateful_pce_capability,
  decode_multipath_capability,
}
use pce_testing.Pcep.Tlv.Write.{set_flags, multipath_flags, defined_stateful_pce_flags_mask}
use pce_testing.Pcep.Tlv.Serialize.{serialize}
use pce_testing.Pcep.Tlv.Sequence.{decode_known}
use pce_testing.Pcep.Tlv.RoundTrip.Frame.{unpadded, fixed_value_put}
use pce_testing.Pcep.Tlv.RoundTrip.WellFormed.{HasDefinedFlags}
use pce_testing.Pcep.Tlv.RoundTrip.Reads.{Sub, Reads, unpadded-Reads}

-- The word of the seven defined flags, and each flag read from it.
abbrev flag_word : Bool → Bool → Bool → Bool → Bool → Bool → Bool → ℕ
flag_word a b c d e f g =
    bit_and
      (set_bit
        (set_bit (set_bit (set_bit (set_bit (set_bit (set_bit 0 1 a) 2 b) 4 c) 8 d) 16 e) 32 f) 2048
        g)
      defined_stateful_pce_flags_mask

-- The flags of a word are these, and it has no bit above the twelfth.
abbrev has_flags : ℕ → Bool → Bool → Bool → Bool → Bool → Bool → Bool → Bool
has_flags w a b c d e f g =
    same (is_bit_set w 1) a
    && same (is_bit_set w 2) b
    && same (is_bit_set w 4) c
    && same (is_bit_set w 8) d
    && same (is_bit_set w 16) e
    && same (is_bit_set w 32) f
    && same (is_bit_set w 2048) g
    && ltb w 4096

abbrev HasFlags : ℕ → Bool → Bool → Bool → Bool → Bool → Bool → Bool → Type 0
HasFlags w a b c d e f g =
    (is_bit_set w 1 ≡ a)
    × (is_bit_set w 2 ≡ b)
    × (is_bit_set w 4 ≡ c)
    × (is_bit_set w 8 ≡ d)
    × (is_bit_set w 16 ≡ e)
    × (is_bit_set w 32 ≡ f)
    × (is_bit_set w 2048 ≡ g)
    × (w < 4096)

has_flags-HasFlags :
    (w : ℕ) (a b c d e f g : Bool) → has_flags w a b c d e f g ≡ true → HasFlags w a b c d e f g
has_flags-HasFlags w a b c d e f g h = ground arith

abbrev all_flags : (Bool → Bool → Bool → Bool → Bool → Bool → Bool → Bool) → Bool
all_flags p =
    both (λ a. both (λ b. both (λ c. both (λ d. both (λ e. both (λ f. both (p a b c d e f)))))))

all_flags_sound :
    (p : Bool → Bool → Bool → Bool → Bool → Bool → Bool → Bool) (a b c d e f g : Bool)
    → all_flags p ≡ true
    → p a b c d e f g ≡ true
all_flags_sound p a b c d e f g h = both_sound (p a b c d e f) g (
    both_sound (λ f. both (p a b c d e f)) f
      (both_sound (λ e. both (λ f. both (p a b c d e f))) e
        (both_sound (λ d. both (λ e. both (λ f. both (p a b c d e f)))) d
          (both_sound (λ c. both (λ d. both (λ e. both (λ f. both (p a b c d e f))))) c
            (both_sound (λ b. both (λ c. both (λ d. both (λ e. both (λ f. both (p a b c d e f))))))
              b
              (both_sound
                (λ a.
                  both (λ b. both (λ c. both (λ d. both (λ e. both (λ f. both (p a b c d e f)))))))
                a h))))))

-- All 128 words, by evaluation.
flags_table : all_flags (λ a b c d e f g. has_flags (flag_word a b c d e f g) a b c d e f g) ≡ true
unfolding is_bit_set set_bit
flags_table = refl

flag_word-HasFlags : (a b c d e f g : Bool) → HasFlags (flag_word a b c d e f g) a b c d e f g
flag_word-HasFlags a b c d e f g = has_flags-HasFlags (flag_word a b c d e f g) a b c d e f g (
    all_flags_sound (λ a b c d e f g. has_flags (flag_word a b c d e f g) a b c d e f g) a b c d e f
      g flags_table)

abbrev stateful_word : StatefulPceCapability → ℕ
stateful_word t = bit_and (set_flags t) defined_stateful_pce_flags_mask

stateful_word-HasFlags :
    (t : StatefulPceCapability)
    → HasFlags
        (stateful_word t)
        t.lsp_update_capability
        t.include_db_version
        t.lsp_instantiation_capability
        t.triggered_resync
        t.delta_lsp_sync_capability
        t.triggered_initial_sync
        t.color_capability
unfolding set_flags
stateful_word-HasFlags t =
    flag_word-HasFlags t.lsp_update_capability t.include_db_version t.lsp_instantiation_capability
      t.triggered_resync t.delta_lsp_sync_capability t.triggered_initial_sync t.color_capability

put32_reads : (v : ℕ) → v < 4096 → read32 {E = TlvError} (put32 v) ≡ ok v
unfolding read32 put32
put32_reads v h = ap ok (omega arith)

-- A record of capabilities is what the flags of a word say.
extract_capabilities-HasFlags :
    (w : ℕ) (t : StatefulPceCapability)
    → HasDefinedFlags t
    → HasFlags w t.lsp_update_capability t.include_db_version t.lsp_instantiation_capability
        t.triggered_resync t.delta_lsp_sync_capability t.triggered_initial_sync t.color_capability
    → extract_capabilities w ≡ t
unfolding extract_capabilities
extract_capabilities-HasFlags w t h k = cc

decode_stateful_put :
    (t : StatefulPceCapability)
    → HasDefinedFlags t
    → decode_stateful_pce_capability (unpadded 0x10 (put32 (stateful_word t))) ≡ ok t
unfolding decode_stateful_pce_capability
decode_stateful_put t h =
    let flags = stateful_word-HasFlags t in
    rw (fixed_value_put 0x10 (put32 (stateful_word t)) 4 (unfold put32 in refl) (omega arith)) (
      rw (put32_reads (stateful_word t) (omega (arith, flags.7)))
        (ap ok (extract_capabilities-HasFlags (stateful_word t) t h flags)))

abbrev sr_bytes : Bool → Bool → ℕ → List ℕ
sr_bytes unlimited nai depth = set_bit (set_bit 0 1 unlimited) 2 nai ∷ depth ∷ 0 ∷ 0 ∷ []

sr_flags :
    (a b : Bool)
    → (is_bit_set (set_bit (set_bit 0 1 a) 2 b) 1 ≡ a)
      × (is_bit_set (set_bit (set_bit 0 1 a) 2 b) 2 ≡ b)
unfolding is_bit_set set_bit
sr_flags true true = (refl, refl)
sr_flags true false = (refl, refl)
sr_flags false true = (refl, refl)
sr_flags false false = (refl, refl)

decode_sr_put :
    (t : SrPceCapability)
    → decode_sr_pce_capability (
        unpadded 0x1a
          (sr_bytes t.has_unlimited_max_sid_depth t.is_nai_supported t.maximum_sid_depth))
      ≡ ok t
unfolding decode_sr_pce_capability
decode_sr_put t =
    let flags = sr_flags t.has_unlimited_max_sid_depth t.is_nai_supported in
    rw
      (fixed_value_put 0x1a
        (sr_bytes t.has_unlimited_max_sid_depth t.is_nai_supported t.maximum_sid_depth) 4 refl
        (omega arith))
      (unfold index in
        λ i. ok (record {
          has_unlimited_max_sid_depth = flags.0 i;
          is_nai_supported = flags.1 i;
          maximum_sid_depth = t.maximum_sid_depth;
        }))

-- The word of the four multipath flags.
abbrev path_word : Bool → Bool → Bool → Bool → ℕ
path_word w o f c = set_bit (set_bit (set_bit (set_bit 0 1 w) 4 o) 8 f) 16 c

abbrev has_path_flags : ℕ → Bool → Bool → Bool → Bool → Bool
has_path_flags v w o f c =
    same (is_bit_set v 1) w
    && same (is_bit_set v 4) o
    && same (is_bit_set v 8) f
    && same (is_bit_set v 16) c
    && ltb v 256

path_table :
    both (λ w. both (λ o. both (λ f. both (λ c. has_path_flags (path_word w o f c) w o f c))))
    ≡ true
unfolding is_bit_set set_bit
path_table = refl

path_word_flags : (w o f c : Bool) → has_path_flags (path_word w o f c) w o f c ≡ true
path_word_flags w o f c =
    both_sound (λ c. has_path_flags (path_word w o f c) w o f c) c
      (both_sound (λ f. both (λ c. has_path_flags (path_word w o f c) w o f c)) f
        (both_sound (λ o. both (λ f. both (λ c. has_path_flags (path_word w o f c) w o f c))) o
          (both_sound
            (λ w. both (λ o. both (λ f. both (λ c. has_path_flags (path_word w o f c) w o f c)))) w
            path_table)))

path_flags_apart :
    (v : ℕ) (w o f c : Bool)
    → has_path_flags v w o f c ≡ true
    → (is_bit_set v 1 ≡ w)
      × (is_bit_set v 4 ≡ o)
      × (is_bit_set v 8 ≡ f)
      × (is_bit_set v 16 ≡ c)
      × (v < 256)
path_flags_apart v w o f c h = ground arith

multipath_flags_apart :
    (t : MultipathCapability)
    → (is_bit_set (multipath_flags t) 1 ≡ t.is_weighted_supported)
      × (is_bit_set (multipath_flags t) 4 ≡ t.is_opposite_dir_supported)
      × (is_bit_set (multipath_flags t) 8 ≡ t.is_forward_class_supported)
      × (is_bit_set (multipath_flags t) 16 ≡ t.is_composite_path_supported)
      × (multipath_flags t < 256)
unfolding multipath_flags
multipath_flags_apart t =
    path_flags_apart
      (path_word t.is_weighted_supported t.is_opposite_dir_supported t.is_forward_class_supported
        t.is_composite_path_supported)
      t.is_weighted_supported t.is_opposite_dir_supported t.is_forward_class_supported
      t.is_composite_path_supported
      (path_word_flags t.is_weighted_supported t.is_opposite_dir_supported
        t.is_forward_class_supported t.is_composite_path_supported)

put16_reads : (v : ℕ) → IsU16 v → read16 {E = TlvError} (put16 v) ≡ ok v
unfolding read16 put16
put16_reads v h = ap ok (omega arith)

second_word : (v : ℕ) (xs : List ℕ) → drop 2 (put16 v ++ xs) ≡ xs
unfolding put16
second_word v xs = refl

decode_multipath_put :
    (t : MultipathCapability)
    → IsU16 t.max_multipaths
    → decode_multipath_capability
        (unpadded 0x3c (put16 t.max_multipaths ++ put16 (multipath_flags t)))
      ≡ ok t
unfolding decode_multipath_capability
decode_multipath_put t h =
    let flags = multipath_flags_apart t in
    rw
      (fixed_value_put 0x3c (put16 t.max_multipaths ++ put16 (multipath_flags t)) 4
        (unfold put16 in refl) (omega arith))
      (rw (put16_read {E = TlvError} t.max_multipaths (put16 (multipath_flags t)) h) (
        rw (second_word t.max_multipaths (put16 (multipath_flags t))) (
          rw (put16_reads (multipath_flags t) (omega (arith, flags.4))) (λ i. ok (record {
            max_multipaths = t.max_multipaths;
            is_weighted_supported = flags.0 i;
            is_opposite_dir_supported = flags.1 i;
            is_forward_class_supported = flags.2 i;
            is_composite_path_supported = flags.3 i;
          })))))

module _ (sub : Sub) where
  pub sr_pce_capability-Reads : (t : SrPceCapability) → Reads sub (sr_pce_capability t)
  sr_pce_capability-Reads t =
      unpadded-Reads sub (sr_pce_capability t) 0x1a
        (sr_bytes t.has_unlimited_max_sid_depth t.is_nai_supported t.maximum_sid_depth) 4
        (unfold serialize in refl) (omega arith) refl (omega arith) (omega arith)
        (unfold decode_known in rw (decode_sr_put t))

  pub stateful_pce_capability-Reads :
      (t : StatefulPceCapability) → HasDefinedFlags t → Reads sub (stateful_pce_capability t)
  stateful_pce_capability-Reads t h =
      unpadded-Reads sub (stateful_pce_capability t) 0x10 (put32 (stateful_word t)) 4
        (unfold serialize put32 in refl) (omega arith) (unfold put32 in refl) (omega arith)
        (omega arith) (unfold decode_known in rw (decode_stateful_put t h))

  pub multipath_capability-Reads :
      (t : MultipathCapability) → IsU16 t.max_multipaths → Reads sub (multipath_capability t)
  multipath_capability-Reads t h =
      unpadded-Reads sub (multipath_capability t) 0x3c
        (put16 t.max_multipaths ++ put16 (multipath_flags t)) 4 (unfold serialize put16 in refl)
        (omega arith) (unfold put16 in refl) (omega arith) (omega arith)
        (unfold decode_known in rw (decode_multipath_put t h))
