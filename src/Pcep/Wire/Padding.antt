-- ===== src/Pcep/Wire/Padding.antt =====
-- The padding of pkg/packet/pcep/tlv_common.go.
use native.Mathlib.Nat.{mod-add-mod, mod-lt, mod_self}
use pce_testing.Base.{ℕ, ◌+◌, ◌-◌, ◌*◌, ◌/◌, ◌%◌, ◌≤◌, ◌<◌, ◌≡◌, sym, ap, ◌∙◌, arith}
use pce_testing.Pcep.Wire.{padded_length, tlv_alignment}

round_up_mod : (n align : ℕ) → 0 < align → (n + (align - n % align)) % align ≡ 0
round_up_mod n align h =
    sym (mod-add-mod n align (align - n % align))
    ∙ ap (λ t. t % align) (omega (arith, mod-lt n h))
    ∙ mod_self align

-- `paddedLength` gives the least multiple of the alignment that is not below the length, for every
-- positive alignment: a multiple, at least `n`, and less than `align` above it.
pub padded_length_least :
    (n align : ℕ)
    → 0 < align
    → (padded_length n align % align ≡ 0)
      × (n ≤ padded_length n align)
      × (padded_length n align < n + align)
unfolding padded_length
padded_length_least n align h = ground (arith, round_up_mod n align h, mod-lt n h)

-- At the alignment of the TLVs the mask of `decodeTLVSequence` gives the same number.
pub padded_length_mask :
    (n : ℕ)
    → padded_length n tlv_alignment ≡ (n + tlv_alignment - 1) / tlv_alignment * tlv_alignment
unfolding padded_length
padded_length_mask n = ground arith
