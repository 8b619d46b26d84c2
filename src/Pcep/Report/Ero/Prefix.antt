-- ===== src/Pcep/Report/Ero/Prefix.antt =====
-- The IPv4 prefix subobject of pkg/packet/pcep/object.go: making it, writing it and reading it back.
use Prim.Native.Nat.{bit_and}
use pce_testing.Base.{
  ℕ, ◌+◌, ◌≤◌, ◌<◌, ◌≡◌, refl, sym, ◌∙◌, Bool, true, false, ◌&&◌, List, [], ◌∷◌, ◌++◌, arith,
  Result, ok, ◌>>◌, guard, leb, ltb, ◌==◌, ==_iff, length,
}
use pce_testing.Base.Bits.{all_below, all_below_sound, both, both_sound, same, same→eq}
use pce_testing.Base.Bytes.{index, slice}
use pce_testing.Net.{Addr, invalid, v4, v6, is4, as_slice}
use pce_testing.Pcep.Wire.{set_bit}
use pce_testing.Pcep.Report.Ero.{RsvpIpv4PrefixEroSubobject}
use pce_testing.Pcep.Report.Ero.Decode.{EroError, flag, decode_rsvp_ipv4_prefix}

unfoldable pub serialize_rsvp_ipv4_prefix : RsvpIpv4PrefixEroSubobject → Result EroError (List ℕ)
unfolding set_bit
serialize_rsvp_ipv4_prefix o =
    guard (is4 o.address) EroError.address_not_of_nai_type
    >> (guard (leb o.prefix_len 32) EroError.invalid_prefix_length
        >> ok (
            set_bit o.subobject_type 0x80 o.l_flag
            ∷ 8
            ∷ (as_slice o.address ++ (o.prefix_len ∷ 0 ∷ []))))

unfoldable pub new_rsvp_ipv4_prefix_ero_subobject :
    Addr → ℕ → Result EroError RsvpIpv4PrefixEroSubobject
new_rsvp_ipv4_prefix_ero_subobject address prefix_len =
    guard (is4 address) EroError.address_not_of_nai_type
    >> (guard (leb prefix_len 32) EroError.invalid_prefix_length
        >> ok (record {
          l_flag = false;
          subobject_type = 0x01;
          length = 8;
          address = address;
          prefix_len = prefix_len;
        }))

abbrev first_byte_read : ℕ → Bool → Bool
first_byte_read t l =
    same (flag (set_bit t 0x80 l) 0x80) l && (bit_and (set_bit t 0x80 l) 0x7f == t)

first_byte_table : all_below 128 (λ t. both (first_byte_read t)) ≡ true
unfolding all_below set_bit
first_byte_table = refl

first_byte :
    (t : ℕ) (l : Bool)
    → t < 128
    → (flag (set_bit t 0x80 l) 0x80 ≡ l) × (bit_and (set_bit t 0x80 l) 0x7f ≡ t)
first_byte t l h = parts _ (bit_and (set_bit t 0x80 l) 0x7f) (
    both_sound (first_byte_read t) l
      (all_below_sound 128 (λ k. both (first_byte_read k)) t first_byte_table h))
  where
    parts : (f : Bool) (n : ℕ) → (same f l && (n == t)) ≡ true → (f ≡ l) × (n ≡ t)
    parts f n e = (same→eq f l (ground arith), (==_iff n t).0 (ground arith))

-- A prefix that fits the wire.
pub record IsPrefix (o : RsvpIpv4PrefixEroSubobject) : Type 0 where
  pub small_type : o.subobject_type < 128
  pub fixed_length : o.length ≡ 8
  pub ipv4 : is4 o.address ≡ true
  pub four_bytes : length (as_slice o.address) ≡ 4
  pub small_prefix : o.prefix_len ≤ 32

abbrev pub IsReadBack : RsvpIpv4PrefixEroSubobject → List ℕ → Type 0
IsReadBack o rest =
    (bytes : List ℕ) × (serialize_rsvp_ipv4_prefix o ≡ ok bytes)
    × (length bytes ≡ 8)
    × (decode_rsvp_ipv4_prefix (bytes ++ rest) ≡ ok o)

passes : {A : Type 0} (b : Bool) (e : EroError) (a : A) → b ≡ true → (guard b e >> ok a) ≡ ok a
passes true e a h = refl
passes false e a h = absurd (cc)

decoded :
    (w a b c d p : ℕ) (rest : List ℕ)
    → leb p 32 ≡ true
    → decode_rsvp_ipv4_prefix (w ∷ 8 ∷ a ∷ b ∷ c ∷ d ∷ p ∷ 0 ∷ rest)
      ≡ ok (record {
        l_flag = flag w 0x80;
        subobject_type = bit_and w 0x7f;
        length = 8;
        address = v4 (a ∷ b ∷ c ∷ d ∷ []);
        prefix_len = p;
      })
unfolding decode_rsvp_ipv4_prefix index slice
decoded w a b c d p rest le =
    let long : ltb (length rest + 8) 8 ≡ false = ground arith in
    let room : leb 6 (length rest + 8) ≡ true = ground arith in ground arith

read_back :
    (l : Bool) (t n p : ℕ) (a : Addr) (rest : List ℕ)
    → t < 128
    → n ≡ 8
    → is4 a ≡ true
    → length (as_slice a) ≡ 4
    → p ≤ 32
    → IsReadBack
        (record { l_flag = l; subobject_type = t; length = n; address = a; prefix_len = p })
        rest
unfolding decode_rsvp_ipv4_prefix serialize_rsvp_ipv4_prefix index slice
read_back l t n p (v4 (a ∷ b ∷ c ∷ d ∷ [])) rest ht hn hv hl hp =
    let le : leb p 32 ≡ true = ground arith in
    let (f, g) = first_byte t l ht in
    (
      set_bit t 0x80 l ∷ 8 ∷ a ∷ b ∷ c ∷ d ∷ p ∷ 0 ∷ [],
      passes (leb p 32) _ _ le,
      refl,
      decoded (set_bit t 0x80 l) a b c d p rest le ∙ (λ i. ok (record {
        l_flag = f i;
        subobject_type = g i;
        length = sym hn i;
        address = v4 (a ∷ b ∷ c ∷ d ∷ []);
        prefix_len = p;
      })),
    )
read_back l t n p invalid rest ht hn hv hl hp = absurd (cc)
read_back l t n p (v6 _ _) rest ht hn hv hl hp = absurd (cc)
read_back l t n p (v4 []) rest ht hn hv hl hp = absurd (omega arith)
read_back l t n p (v4 (a ∷ [])) rest ht hn hv hl hp = absurd (omega arith)
read_back l t n p (v4 (a ∷ b ∷ [])) rest ht hn hv hl hp = absurd (omega arith)
read_back l t n p (v4 (a ∷ b ∷ c ∷ [])) rest ht hn hv hl hp = absurd (omega arith)
read_back l t n p (v4 (a ∷ b ∷ c ∷ d ∷ e ∷ r)) rest ht hn hv hl hp = absurd (omega arith)

-- An IPv4 prefix subobject that fits the wire is written by `Serialize` without an error, in eight
-- bytes, and `DecodeFromBytes` reads it back, whatever follows it.
pub decode-serialize_rsvp_ipv4_prefix :
    (o : RsvpIpv4PrefixEroSubobject) (rest : List ℕ) → IsPrefix o → IsReadBack o rest
decode-serialize_rsvp_ipv4_prefix o rest h =
    read_back o.l_flag o.subobject_type o.length o.prefix_len o.address rest h.small_type
      h.fixed_length h.ipv4 h.four_bytes h.small_prefix
