-- ===== src/Table/Segment/Equality.antt =====
-- What SegmentsEqual of pkg/table/sr_policy.go decides.
use pce_testing.Base.{◌≡◌, ◌↔◌, true, ◌&&◌, ==_iff}
use pce_testing.Net.{addr_eq}
use pce_testing.Net.Equality.{and_split, addr_eq-eq, addr_eq_iff}
use pce_testing.Table.Segment.{
  Segment, SegmentSrv6, srv6, srmpls, foreign, absent, segments_equal, srv6_equal, srmpls_equal,
}

-- The same hop: one label, or one SID with the same node information.
abbrev pub SameHop : Segment → Segment → Type 0
SameHop (srv6 a) (srv6 b) =
    (a.sid ≡ b.sid) × (a.local_addr ≡ b.local_addr) × (a.remote_addr ≡ b.remote_addr)
SameHop (srmpls a) (srmpls b) = a.sid ≡ b.sid
SameHop (srv6 a) _ = ⊥
SameHop (srmpls a) _ = ⊥
SameHop (foreign t) _ = ⊥
SameHop absent _ = ⊥

srv6_same : (a b : SegmentSrv6) → (srv6_equal a b ≡ true) ↔ SameHop (srv6 a) (srv6 b)
unfolding srv6_equal
srv6_same a b = (
  λ h.
      let (p, r) = and_split (addr_eq a.sid b.sid && addr_eq a.local_addr b.local_addr) _ h in
      let (q, l) = and_split (addr_eq a.sid b.sid) (addr_eq a.local_addr b.local_addr) p in
      (
        addr_eq-eq a.sid b.sid q,
        addr_eq-eq a.local_addr b.local_addr l,
        addr_eq-eq a.remote_addr b.remote_addr r,
      ),
  λ h.
      rw ((addr_eq_iff a.sid b.sid).1 h.0, (addr_eq_iff a.local_addr b.local_addr).1 h.1)
        ((addr_eq_iff a.remote_addr b.remote_addr).1 h.2),
)

-- `SegmentsEqual` holds of two segments exactly when both are SR-MPLS segments with one label, or
-- both are SRv6 segments with the same SID and the same local and remote address.
pub segments_equal_iff : (a b : Segment) → (segments_equal a b ≡ true) ↔ SameHop a b
unfolding segments_equal srmpls_equal
segments_equal_iff (srv6 a) (srv6 b) = srv6_same a b
segments_equal_iff (srv6 a) (srmpls b) = (λ h. absurd (cc), λ h. elim h [ ])
segments_equal_iff (srv6 a) (foreign t) = (λ h. absurd (cc), λ h. elim h [ ])
segments_equal_iff (srv6 a) absent = (λ h. absurd (cc), λ h. elim h [ ])
segments_equal_iff (srmpls a) (srv6 b) = (λ h. absurd (cc), λ h. elim h [ ])
segments_equal_iff (srmpls a) (srmpls b) = ==_iff a.sid b.sid
segments_equal_iff (srmpls a) (foreign t) = (λ h. absurd (cc), λ h. elim h [ ])
segments_equal_iff (srmpls a) absent = (λ h. absurd (cc), λ h. elim h [ ])
segments_equal_iff (foreign t) b = (λ h. absurd (cc), λ h. elim h [ ])
segments_equal_iff absent b = (λ h. absurd (cc), λ h. elim h [ ])
