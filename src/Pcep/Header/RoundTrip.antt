-- ===== src/Pcep/Header/RoundTrip.antt =====
-- The common headers are read back as they were written.
use Prim.Native.Nat.{bit_and, bit_or}
use pce_testing.Base.{
  ℕ, suc, ltb, ◌*◌, ◌/◌, ◌%◌, ◌<◌, ◌≡◌, refl, Bool, true, false, not, ◌&&◌, List, ◌++◌, arith, ok,
  ◌==◌, ==_iff, length,
}
use pce_testing.Base.Bits.{all_below, all_below_sound, both, both_sound, same, same→eq}
use pce_testing.Base.Bytes.{index, read16, be16, u8, put16, IsU16}
use pce_testing.Pcep.Wire.{uint16_to_byte_slice}
use pce_testing.Pcep.Header.{
  CommonHeader, CommonObjectHeader, decode_common_header, serialize_common_header,
  decode_common_object_header, serialize_common_object_header, flag_byte,
}

abbrev version_flag_read : ℕ → ℕ → Bool
version_flag_read v f =
    (bit_or (u8 (v * 32)) f / 32 == v) && (bit_and (bit_or (u8 (v * 32)) f) 0x1f == f)

version_flag_table : all_below 8 (λ v. all_below 32 (version_flag_read v)) ≡ true
unfolding all_below
version_flag_table = refl

abbrev flags_read : ℕ → ℕ → Bool → Bool → Bool
flags_read t r p i =
    (bit_and (flag_byte t r p i) 0xf0 / 16 == t)
    && (bit_and (flag_byte t r p i) 0x0c / 4 == r)
    && same (not (bit_and (flag_byte t r p i) 2 == 0)) p
    && same (not (bit_and (flag_byte t r p i) 1 == 0)) i

flags_table : all_below 16 (λ t. all_below 4 (λ r. both (λ p. both (flags_read t r p)))) ≡ true
unfolding all_below
flags_table = refl

version_flag : (v f : ℕ) → v < 8 → f < 32 → version_flag_read v f ≡ true
version_flag v f hv hf =
    all_below_sound 32 (version_flag_read v) f
      (all_below_sound 8 (λ x. all_below 32 (version_flag_read x)) v version_flag_table hv) hf

flags : (t r : ℕ) (p i : Bool) → t < 16 → r < 4 → flags_read t r p i ≡ true
flags t r p i ht hr = both_sound (flags_read t r p) i (
    both_sound (λ q. both (flags_read t r q)) p
      (all_below_sound 4 (λ s. both (λ q. both (flags_read t s q))) r
        (all_below_sound 16 (λ x. all_below 4 (λ s. both (λ q. both (flags_read x s q)))) t
          flags_table ht)
        hr))

two_parts : (a b : Bool) → (a && b) ≡ true → (a ≡ true) × (b ≡ true)
two_parts true b h = (refl, h)
two_parts false b h = absurd (cc)

long : (n : ℕ) → ltb (suc (suc (suc (suc n)))) 4 ≡ false
long n = ground arith

-- The common header of a message is read back as it was written, whatever follows it, when its
-- fields fit their widths.
pub decode-serialize_common_header :
    (h : CommonHeader) (rest : List ℕ)
    → h.version < 8
    → h.flag < 32
    → IsU16 h.message_length
    → decode_common_header (serialize_common_header h ++ rest) ≡ ok h
unfolding decode_common_header serialize_common_header index read16 put16 uint16_to_byte_slice
decode-serialize_common_header h rest hv hf hl =
    let (a, b) = two_parts _ _ (version_flag h.version h.flag hv hf) in
    let version = (==_iff (bit_or (u8 (h.version * 32)) h.flag / 32) h.version).0 a in
    let flag = (==_iff (bit_and (bit_or (u8 (h.version * 32)) h.flag) 0x1f) h.flag).0 b in
    let len : be16 (h.message_length / 256 % 256) (h.message_length % 256) ≡ h.message_length =
      omega arith in
    λ i. ok (record {
      version = version i;
      flag = flag i;
      message_type = h.message_type;
      message_length = len i;
    })

pub record IsObjectHeader (h : CommonObjectHeader) : Type 0 where
  pub small_type : h.object_type < 16
  pub small_flags : h.res_flags < 4
  pub small_length : IsU16 h.object_length

-- The common header of an object is read back as it was written, whatever follows it, when its
-- fields fit their widths.
pub decode-serialize_common_object_header :
    (h : CommonObjectHeader) (rest : List ℕ)
    → IsObjectHeader h
    → decode_common_object_header (serialize_common_object_header h ++ rest) ≡ ok h
unfolding decode_common_object_header serialize_common_object_header index read16 put16
    uint16_to_byte_slice
decode-serialize_common_object_header h rest w =
    let b = flag_byte h.object_type h.res_flags h.p_flag h.i_flag in
    let (r1, e) =
      two_parts _ _
        (flags h.object_type h.res_flags h.p_flag h.i_flag w.small_type w.small_flags) in
    let (r2, d) = two_parts _ _ r1 in
    let (a, c) = two_parts _ _ r2 in
    let typ = (==_iff (bit_and b 0xf0 / 16) h.object_type).0 a in
    let res = (==_iff (bit_and b 0x0c / 4) h.res_flags).0 c in
    let p = same→eq (not (bit_and b 2 == 0)) h.p_flag d in
    let i_flag = same→eq (not (bit_and b 1 == 0)) h.i_flag e in
    let len : be16 (h.object_length / 256 % 256) (h.object_length % 256) ≡ h.object_length =
      let small = w.small_length in omega arith in
    rw (long (length rest)) (λ i. ok (record {
      object_class = h.object_class;
      object_type = typ i;
      res_flags = res i;
      p_flag = p i;
      i_flag = i_flag i;
      object_length = len i;
    }))
