-- ===== src/Pcep/Report/Ero/Progress.antt =====
-- Len() of a decoded subobject of pkg/packet/pcep/object.go is eight at least.
use Prim.Native.Nat.{bit_and}
use pce_testing.Base.{
  ℕ, ◌+◌, ◌≤◌, ◌≡◌, ◌⊎◌, inl, inr, refl, ap, Bool, true, false, List, arith, Result, ok, >>=-eq-ok,
  ok_inj, ◌==◌, if◌then◌else◌, Bool-cases,
}
use pce_testing.Base.Bytes.{index}
use pce_testing.Pcep.Report.Ero.{SrEroSubobject, Srv6EroSubobject, EroSubobject}
use pce_testing.Pcep.Report.Ero.Decode.{
  EroError, nai_length, decode_sr_ero, len_sr_ero, decode_srv6_ero, srv6_nai_length, len_srv6_ero,
  decode_rsvp_ipv4_prefix, decode_subobject,
}

-- `Len()` of a decoded subobject is eight at least, so a round of the loop makes progress.
nai_length-ok : (o : SrEroSubobject) (n : ℕ) → len_sr_ero o ≡ ok n → 8 ≤ n
unfolding len_sr_ero
nai_length-ok o n h = elim (Bool-cases o.f_flag) [
  | inl e ↦ at_least (rw e at h)
  | inr e ↦
      let (m, e1, h1) = >>=-eq-ok (nai_length o.nai_type) _ (rw e at h) in
      let same : 8 + m ≡ n = ok_inj h1 in omega arith
]
  where
    at_least : {n : ℕ} → ◌≡◌ {A = Result EroError ℕ} (ok 8) (ok n) → 8 ≤ n
    at_least g = let same = ok_inj g in omega (arith, same)

len_srv6_ero-ok : (o : Srv6EroSubobject) (n : ℕ) → len_srv6_ero o ≡ ok n → 8 ≤ n
unfolding len_srv6_ero
len_srv6_ero-ok o n h =
    let (m, e1, h1) = >>=-eq-ok (srv6_nai_length o.f_flag o.nai_type) _ h in
    let same : 8 + (if o.s_flag then 0 else 16) + m + (if o.t_flag then 8 else 0) ≡ n = ok_inj h1 in
    omega (arith, same)

if-cases :
    {A : Type 0} (b : Bool) (x y r : Result EroError A)
    → (if b then x else y) ≡ r
    → ((b ≡ true) × (x ≡ r)) ⊎ ((b ≡ false) × (y ≡ r))
if-cases true x y r h = inl (refl, h)
if-cases false x y r h = inr (refl, h)

pub decode_subobject-progress :
    (bytes : List ℕ) (o : EroSubobject) (n : ℕ) → decode_subobject bytes ≡ ok (o, n) → 8 ≤ n
unfolding decode_subobject
decode_subobject-progress bytes o n h =
    let (b0, e0, h0) = >>=-eq-ok (index bytes 0) _ h in
    elim (if-cases (bit_and b0 0x7f == 0x24) _ _ (ok (o, n)) h0) [
      | inl (e, g) ↦
          let (s, e1, g1) = >>=-eq-ok (decode_sr_ero bytes) _ g in
          let (m, e2, g2) = >>=-eq-ok (len_sr_ero s) _ g1 in
          let same : m ≡ n = ap (λ p. p.1) (ok_inj g2) in rw (← same) (nai_length-ok s m e2)
      | inr (e, g) ↦ elim (if-cases (bit_and b0 0x7f == 0x28) _ _ (ok (o, n)) g) [
        | inl (f, k) ↦
            let (s, e1, g1) = >>=-eq-ok (decode_srv6_ero bytes) _ k in
            let (m, e2, g2) = >>=-eq-ok (len_srv6_ero s) _ g1 in
            let same : m ≡ n = ap (λ p. p.1) (ok_inj g2) in rw (← same) (len_srv6_ero-ok s m e2)
        | inr (f, k) ↦ elim (if-cases (bit_and b0 0x7f == 0x01) _ _ (ok (o, n)) k) [
          | inl (t, l) ↦
              let (s, e1, g1) = >>=-eq-ok (decode_rsvp_ipv4_prefix bytes) _ l in
              let same : 8 ≡ n = ap (λ p. p.1) (ok_inj g1) in omega arith
          | inr (t, l) ↦ absurd (cc)
        ]
      ]
    ]
