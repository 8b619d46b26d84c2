-- ===== src/Pcep/Tlv/RoundTrip/Fields.antt =====
-- Fields of a written value: what a reader finds behind a prefix, and the addresses that an encoding
-- by their bytes keeps.
use mathlib.Core.List.{append-nil}
use pce_testing.Base.{
  ℕ, zero, suc, ◌+◌, ◌-◌, ◌≤◌, ◌≡◌, refl, sym, ap, ◌∙◌, List, [], ◌∷◌, ◌++◌, arith, ok, length,
  drop, replicate, length-append, take_all, take-append, drop-append,
}
use pce_testing.Base.Bytes.{slice, slice_in_range, put16, put32}
use pce_testing.Net.{Addr, invalid, v4, v6, addr_from_slice, as_slice}
use pce_testing.Pcep.Wire.{TlvError, append_byte_slices, uint16_to_byte_slice}
use pce_testing.Pcep.Tlv.Write.{framed, copy_into, padding_of}
use pce_testing.Pcep.Tlv.RoundTrip.WellFormed.{IsV4, IsV6}
use pce_testing.Pcep.Tlv.RoundTrip.Frame.{unpadded, skipped}

pub drop-append_more :
    (xs ys : List ℕ) (n k m : ℕ) → length xs ≡ n → n + k ≡ m → drop m (xs ++ ys) ≡ drop k ys
drop-append_more [] ys n k m h e = ap (λ j. drop j ys) (omega arith)
drop-append_more (x ∷ xs) ys n k zero h e = absurd (omega arith)
drop-append_more (x ∷ xs) ys n k (suc m) h e =
    drop-append_more xs ys (n - 1) k m (omega arith) (omega arith)

pub copy_into_all : (n : ℕ) (xs : List ℕ) → length xs ≡ n → copy_into n xs ≡ xs
unfolding copy_into
copy_into_all n xs h =
    rw (take_all n xs (omega arith))
      (ap (λ k. xs ++ replicate k 0) (let z : n - length xs ≡ 0 = omega arith in z) ∙ append-nil xs)

pub copy_into_padded :
    (n : ℕ) (xs : List ℕ) → length xs ≤ n → copy_into n xs ≡ xs ++ replicate (n - length xs) 0
unfolding copy_into
copy_into_padded n xs h = rw (take_all n xs h) refl

-- A part of a value, as a slice expression finds it.
pub slice_part :
    (pre part post : List ℕ) (a b : ℕ)
    → length pre ≡ a
    → a + length part ≡ b
    → slice {E = TlvError} (pre ++ (part ++ post)) a b ≡ ok part
slice_part pre part post a b ha hb =
    rw
      (slice_in_range {E = TlvError} (pre ++ (part ++ post)) a b (omega arith)
        (omega (arith, length-append pre (part ++ post), length-append part post)))
      (rw (drop-append pre (part ++ post) a ha)
        (ap ok (take-append part post (b - a) (omega arith))))

pub after16 : (v : ℕ) (xs : List ℕ) (k : ℕ) → drop (suc (suc k)) (put16 v ++ xs) ≡ drop k xs
unfolding put16
after16 v xs k = refl

pub after32 :
    (v : ℕ) (xs : List ℕ) (k : ℕ) → drop (suc (suc (suc (suc k)))) (put32 v ++ xs) ≡ drop k xs
unfolding put32
after32 v xs k = refl

pub length-put16 : (v : ℕ) (xs : List ℕ) → length (put16 v ++ xs) ≡ 2 + length xs
unfolding put16
length-put16 v xs = omega arith

pub length-put32 : (v : ℕ) (xs : List ℕ) → length (put32 v ++ xs) ≡ 4 + length xs
unfolding put32
length-put32 v xs = omega arith

four_bytes : (b : List ℕ) → length b ≡ 4 → addr_from_slice b ≡ v4 b
unfolding addr_from_slice
four_bytes (a ∷ b ∷ c ∷ d ∷ []) h = refl
four_bytes [] h = absurd (omega arith)
four_bytes (a ∷ []) h = absurd (omega arith)
four_bytes (a ∷ b ∷ []) h = absurd (omega arith)
four_bytes (a ∷ b ∷ c ∷ []) h = absurd (omega arith)
four_bytes (a ∷ b ∷ c ∷ d ∷ e ∷ r) h = absurd (omega arith)

pub v4_kept : (a : Addr) → IsV4 a → (length (as_slice a) ≡ 4) × (addr_from_slice (as_slice a) ≡ a)
v4_kept invalid h = elim h [ ]
v4_kept (v4 b) h = (h, four_bytes b h)
v4_kept (v6 b z) h = elim h [ ]

sixteen_bytes : (b : List ℕ) → length b ≡ 16 → addr_from_slice b ≡ v6 b []
unfolding addr_from_slice
sixteen_bytes (a ∷ b ∷ c ∷ d ∷ e ∷ f ∷ g ∷ h ∷ i ∷ j ∷ k ∷ l ∷ m ∷ n ∷ o ∷ p ∷ []) len = refl
sixteen_bytes _ len = absurd (omega arith)

pub v6_kept : (a : Addr) → IsV6 a → (length (as_slice a) ≡ 16) × (addr_from_slice (as_slice a) ≡ a)
v6_kept invalid h = elim h [ ]
v6_kept (v4 b) h = elim h [ ]
v6_kept (v6 b z) h = (h.0, sixteen_bytes b h.0 ∙ ap (v6 b) (sym h.1))

-- What a serializer writes when it pads its value to the alignment.
pub framed_eq : (typ n : ℕ) (xs : List ℕ) → framed typ n xs ≡ put16 typ ++ (put16 n ++ xs)
unfolding framed append_byte_slices uint16_to_byte_slice
framed_eq typ n xs = ap (λ r. put16 typ ++ (put16 n ++ r)) (append-nil xs)

pub framed_padded :
    (typ : ℕ) (value : List ℕ) (pad : ℕ)
    → framed typ (length value) (value ++ replicate pad 0) ≡ unpadded typ value ++ replicate pad 0
framed_padded typ value pad =
    rw (framed_eq typ (length value) (value ++ replicate pad 0)) (unfold put16 in refl)

pub padding_aligned : (n : ℕ) → 4 + n + padding_of n ≡ skipped n
padding_aligned n = omega arith
