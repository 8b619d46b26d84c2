-- ===== src/Pcep/Report/Ero/Lengths.antt =====
-- The length of an SR-ERO subobject of pkg/packet/pcep/object.go that a segment is made into.
use mathlib.Core.Path.{subst}
use pce_testing.Base.{
  ℕ, ◌+◌, ◌≤◌, ◌≡◌, refl, sym, ap, ◌∙◌, Bool, true, false, List, [], ◌++◌, arith, Result, ok, err,
  ◌>>=◌, >>=-eq-ok, ok_inj, length, length-append, drop, length-drop, Bool-cases, inl, inr,
  if◌then◌else◌, ◌==◌,
}
use pce_testing.Base.Bytes.{u8, put32}
use pce_testing.Net.{Addr, invalid, v4, v6, unmap}
use pce_testing.Table.Segment.{SegmentSrMpls}
use pce_testing.Pcep.Wire.{append_byte_slices}
use pce_testing.Pcep.Report.Ero.{SrEroSubobject}
use pce_testing.Pcep.Report.Ero.Decode.{EroError, len_sr_ero, nai_length}
use pce_testing.Pcep.Report.Ero.Write.{
  nai_type_between, nai_type_sr_for, sr_ero_of, new_sr_ero_subobject, nai_bytes, serialize_nai,
  serialize_sr_ero, sr_ero_parts,
}

-- An address has four or sixteen bytes, as netip keeps it.
abbrev pub IsAddr : Addr → Type 0
IsAddr invalid = Unit {0}
IsAddr (v4 b) = length b ≡ 4
IsAddr (v6 b z) = length b ≡ 16

either-IsAddr : (c : Bool) (x y : Addr) → IsAddr x → IsAddr y → IsAddr (if c then x else y)
either-IsAddr true x y h k = h
either-IsAddr false x y h k = k

unmap-IsAddr : (a : Addr) → IsAddr a → IsAddr (unmap a)
unfolding unmap
unmap-IsAddr invalid h = tt
unmap-IsAddr (v4 b) h = h
unmap-IsAddr (v6 b z) h =
    either-IsAddr _ (v4 (drop 12 b)) (v6 b z) (omega (arith, length-drop 12 b)) h

-- A NAI of the type is written, in the bytes that the type has.
abbrev WritesNai : ℕ → Addr → Addr → Type 0
WritesNai t l r =
    (b : List ℕ) × (nai_bytes t l r ≡ ok b) × (nai_length t ≡ ok (length b)) × (length b ≤ 32)

not_link_local : (c : Bool) (e : EroError) (t : ℕ) → (if c then err e else ok 4) ≡ ok t → 4 ≡ t
not_link_local true e t h = absurd (cc)
not_link_local false e t h = ok_inj h

nai_type-WritesNai :
    (l r : Addr) (t : ℕ) → IsAddr l → IsAddr r → nai_type_between l r ≡ ok t → WritesNai t l r
unfolding nai_type_between nai_bytes nai_length
nai_type-WritesNai invalid invalid t hl hr e = rw (← ok_inj e) ([], refl, refl, omega arith)
nai_type-WritesNai invalid (v4 c) t hl hr e = absurd (cc)
nai_type-WritesNai invalid (v6 c y) t hl hr e = absurd (cc)
nai_type-WritesNai (v4 b) invalid t hl hr e = rw (← ok_inj e) (b, refl, ap ok (sym hl), omega arith)
nai_type-WritesNai (v4 b) (v4 c) t hl hr e =
    let n = length-append b c in rw (← ok_inj e) (b ++ c, refl, ap ok (omega arith), omega arith)
nai_type-WritesNai (v4 b) (v6 c y) t hl hr e = absurd (cc)
nai_type-WritesNai (v6 b z) invalid t hl hr e =
    rw (← ok_inj e) (b, refl, ap ok (sym hl), omega arith)
nai_type-WritesNai (v6 b z) (v4 c) t hl hr e = absurd (cc)
nai_type-WritesNai (v6 b z) (v6 c y) t hl hr e =
    let four = not_link_local _ EroError.link_local_adjacency t e in
    let n = length-append b c in rw (← four) (b ++ c, refl, ap ok (omega arith), omega arith)

present :
    (f : Bool) (x : Result EroError ℕ) (m n : ℕ)
    → f ≡ false
    → x ≡ ok m
    → (if f then ok 8 else (x >>= λ k. ok (8 + k))) ≡ ok n
    → 8 + m ≡ n
present f x m n e h r = ok_inj (rw h at (rw e at r))

omitted :
    (f : Bool) (x : Result EroError ℕ) (n : ℕ)
    → f ≡ true
    → (if f then ok 8 else (x >>= λ k. ok (8 + k))) ≡ ok n
    → 8 ≡ n
omitted f x n e r = ok_inj (rw e at r)

shown :
    (f : Bool) (x : Result EroError (List ℕ)) (b : List ℕ)
    → f ≡ false
    → x ≡ ok b
    → (if f then ok [] else x) ≡ ok b
shown f x b e h = rw e h

-- What is written for the NAI, with the F flag that goes with the type.
made_nai :
    (seg : SegmentSrMpls) (t k n : ℕ)
    → WritesNai t (unmap seg.local_addr) (unmap seg.remote_addr)
    → len_sr_ero (sr_ero_of seg t k) ≡ ok n
    → (b : List ℕ) × (serialize_nai (sr_ero_of seg t k) ≡ ok b) × (8 + length b ≡ n) × (n ≤ 40)
unfolding len_sr_ero serialize_nai
made_nai seg t k n w e = elim (Bool-cases (t == 0)) [
  | inl z ↦
      (let eight = omitted (t == 0) (nai_length t) n z e in
        ([], rw z refl, omega arith, omega arith))
  | inr f ↦
      (let (b, wb, lb, small) = w in
        let total = present (t == 0) (nai_length t) (length b) n f lb e in
        (b, shown (t == 0) _ b f wb, total, omega arith))
]

returned :
    (x : Result EroError (List ℕ)) (b : List ℕ) (f : List ℕ → List ℕ)
    → x ≡ ok b
    → (x >>= λ n. ok (f n)) ≡ ok (f b)
returned x b f h = rw h refl

length-sr_ero_parts :
    (o : SrEroSubobject) (b : List ℕ)
    → length (append_byte_slices (sr_ero_parts o b)) ≡ 8 + length b
unfolding append_byte_slices put32
length-sr_ero_parts o b = omega (arith, length-append b [])

-- The subobject is written, in the bytes that `Len` gives and the length field says.
abbrev pub IsWritten : SrEroSubobject → Type 0
IsWritten o =
    (bytes : List ℕ) × (serialize_sr_ero o ≡ ok bytes)
    × (len_sr_ero o ≡ ok (length bytes))
    × (o.length ≡ length bytes)

len_again :
    (seg : SegmentSrMpls) (t k : ℕ)
    → len_sr_ero (sr_ero_of seg t k) ≡ len_sr_ero (sr_ero_of seg t 0)
unfolding len_sr_ero
len_again seg t k = refl

sr_ero_of-IsWritten :
    (seg : SegmentSrMpls) (t n : ℕ)
    → WritesNai t (unmap seg.local_addr) (unmap seg.remote_addr)
    → len_sr_ero (sr_ero_of seg t 0) ≡ ok n
    → IsWritten (sr_ero_of seg t (u8 n))
sr_ero_of-IsWritten seg t n w e =
    let o = sr_ero_of seg t (u8 n) in
    let same = len_again seg t (u8 n) ∙ e in
    let (b, sb, total, small) = made_nai seg t (u8 n) n w same in
    let long = length-sr_ero_parts o b in
    (
      append_byte_slices (sr_ero_parts o b),
      unfold serialize_sr_ero in
          returned (serialize_nai o) b (λ x. append_byte_slices (sr_ero_parts o x)) sb,
      same ∙ ap ok (omega arith),
      omega arith,
    )

-- A segment that `NewSREroSubobject` accepts is made into a subobject that `Serialize` writes without
-- an error, in as many bytes as `Len` gives and as the length field says, where its addresses have
-- four or sixteen bytes.
pub new_sr_ero_subobject-IsWritten :
    (seg : SegmentSrMpls) (o : SrEroSubobject)
    → IsAddr seg.local_addr
    → IsAddr seg.remote_addr
    → new_sr_ero_subobject seg ≡ ok o
    → IsWritten o
unfolding new_sr_ero_subobject nai_type_sr_for
new_sr_ero_subobject-IsWritten seg o hl hr e =
    let (t, et, h) = >>=-eq-ok (nai_type_sr_for seg) _ e in
    let (n, en, k) = >>=-eq-ok (len_sr_ero (sr_ero_of seg t 0)) _ h in
    let w =
      nai_type-WritesNai (unmap seg.local_addr) (unmap seg.remote_addr) t
        (unmap-IsAddr seg.local_addr hl) (unmap-IsAddr seg.remote_addr hr) et in
    subst IsWritten (ok_inj k) (sr_ero_of-IsWritten seg t n w en)
