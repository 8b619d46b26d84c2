-- ===== src/Net/Equality.antt =====
-- Go's == on byte slices and on addresses of net/netip decides equality.
use pce_testing.Base.{
  ℕ, ◌≡◌, ◌↔◌, refl, sym, ap, ◌∙◌, Bool, true, false, ◌&&◌, List, [], ◌∷◌, ◌==◌, ==_iff, ==_refl,
}
use pce_testing.Net.{Addr, invalid, v4, v6, addr_eq, bytes_eq}

pub and_split : (p q : Bool) → (p && q) ≡ true → (p ≡ true) × (q ≡ true)
and_split true q h = (refl, h)
and_split false q h = cc

bytes_eq-eq : (a b : List ℕ) → bytes_eq a b ≡ true → a ≡ b
unfolding bytes_eq
bytes_eq-eq [] [] h = refl
bytes_eq-eq [] (b ∷ y) h = cc
bytes_eq-eq (a ∷ x) [] h = cc
bytes_eq-eq (a ∷ x) (b ∷ y) h =
    let (p, q) = and_split (a == b) (bytes_eq x y) h in
    let head : a ≡ b = (==_iff a b).0 p in let tail = bytes_eq-eq x y q in λ i. head i ∷ tail i

pub bytes_eq_refl : (a : List ℕ) → bytes_eq a a ≡ true
unfolding bytes_eq
bytes_eq_refl [] = refl
bytes_eq_refl (a ∷ x) = rw (==_refl a) (bytes_eq_refl x)

-- Go's == on addresses is equality.
pub addr_eq-eq : (a b : Addr) → addr_eq a b ≡ true → a ≡ b
unfolding addr_eq
addr_eq-eq invalid invalid h = refl
addr_eq-eq invalid (v4 b) h = cc
addr_eq-eq invalid (v6 b z) h = cc
addr_eq-eq (v4 a) invalid h = cc
addr_eq-eq (v4 a) (v4 b) h = ap v4 (bytes_eq-eq a b h)
addr_eq-eq (v4 a) (v6 b z) h = cc
addr_eq-eq (v6 a y) invalid h = cc
addr_eq-eq (v6 a y) (v4 b) h = cc
addr_eq-eq (v6 a y) (v6 b z) h =
    let (p, q) = and_split (bytes_eq a b) (bytes_eq y z) h in
    let bytes = bytes_eq-eq a b p in let zone = bytes_eq-eq y z q in λ i. v6 (bytes i) (zone i)

addr_eq_refl : (a : Addr) → addr_eq a a ≡ true
unfolding addr_eq
addr_eq_refl invalid = refl
addr_eq_refl (v4 b) = bytes_eq_refl b
addr_eq_refl (v6 b z) = rw (bytes_eq_refl b) (bytes_eq_refl z)

pub addr_eq_iff : (a b : Addr) → (addr_eq a b ≡ true) ↔ (a ≡ b)
addr_eq_iff a b = (addr_eq-eq a b, λ e. ap (addr_eq a) (sym e) ∙ addr_eq_refl a)

pub bytes_eq_iff : (a b : List ℕ) → (bytes_eq a b ≡ true) ↔ (a ≡ b)
bytes_eq_iff a b = (bytes_eq-eq a b, λ e. ap (bytes_eq a) (sym e) ∙ bytes_eq_refl a)
