-- ===== src/Table/Ted/Present.antt =====
-- A segment that NewSegment or NodeSegment of pkg/table returns is of one of the two kinds, so that it
-- equals itself for SegmentsEqual.
use pce_testing.Base.{
  ℕ, ◌+◌, ◌≡◌, refl, sym, ap, ◌∙◌, Bool, true, false, List, Option, none, some, ok, ◌>>=◌, or_err,
  >>=-eq-ok, ok_inj, if◌then◌else◌,
}
use pce_testing.Base.Bytes.{u32}
use pce_testing.Net.{Addr, is6}
use pce_testing.Net.Parse.{parse_addr}
use pce_testing.Strconv.{itoa, parse_uint32}
use pce_testing.Table.Segment.{
  Segment, SegmentSrv6, srv6, srmpls, segments_equal, new_segment_srv6, new_segment_srmpls,
}
use pce_testing.Table.Segment.Equality.{segments_equal_iff}
use pce_testing.Table.Ted.{
  LsNode, new_segment, segment_from, prefix_sid, first_sid, node_segment, unparsed_address,
  invalid_sid, new_segment_srv6_with_node_info,
}

pub srv6-Equal : (a : SegmentSrv6) → segments_equal (srv6 a) (srv6 a) ≡ true
srv6-Equal a = (segments_equal_iff (srv6 a) (srv6 a)).1 (refl, refl, refl)

srmpls-Equal : (a : Segment) (i : ℕ) → a ≡ srmpls (new_segment_srmpls i) → segments_equal a a ≡ true
srmpls-Equal a i e =
    ap (λ x. segments_equal x x) e
    ∙ (segments_equal_iff (srmpls (new_segment_srmpls i)) (srmpls (new_segment_srmpls i))).1 refl

by_number :
    (sid : List ℕ) (seg : Segment)
    → (or_err (parse_uint32 sid) invalid_sid >>= λ i. ok (Segment.srmpls (new_segment_srmpls i)))
      ≡ ok seg
    → segments_equal seg seg ≡ true
by_number sid seg h =
    let (i, e, f) = >>=-eq-ok (or_err (parse_uint32 sid) invalid_sid) _ h in
    srmpls-Equal seg i (sym (ok_inj f))

new_segment-Equal :
    (sid : List ℕ) (seg : Segment) → new_segment sid ≡ ok seg → segments_equal seg seg ≡ true
new_segment-Equal sid seg h = by_address (parse_addr sid) (unfold new_segment in h)
  where
    by_test :
        (b : Bool) (a : Addr)
        → (if b
            then ok (srv6 (new_segment_srv6 a))
            else (or_err (parse_uint32 sid) invalid_sid >>= λ i.
                ok (Segment.srmpls (new_segment_srmpls i))))
          ≡ ok seg
        → segments_equal seg seg ≡ true
    by_test true a e =
        ap (λ x. segments_equal x x) (sym (ok_inj e)) ∙ srv6-Equal (new_segment_srv6 a)
    by_test false a e = by_number sid seg e

    by_address :
        (o : Option Addr)
        → (elim o [
          | none ↦ or_err (parse_uint32 sid) invalid_sid >>= λ i.
              ok (Segment.srmpls (new_segment_srmpls i))
          | some a ↦
              if is6 a
              then ok (srv6 (new_segment_srv6 a))
              else (or_err (parse_uint32 sid) invalid_sid >>= λ i.
                  ok (Segment.srmpls (new_segment_srmpls i)))
        ])
          ≡ ok seg
        → segments_equal seg seg ≡ true
    by_address none e = by_number sid seg e
    by_address (some a) e = by_test (is6 a) a e

from-Equal :
    (n : LsNode) (i : Option ℕ) (t : Option (List ℕ)) (seg : Segment)
    → segment_from n i t ≡ ok seg
    → segments_equal seg seg ≡ true
unfolding segment_from
from-Equal n (some i) t seg h = new_segment-Equal (itoa (u32 (n.srgb_begin + i))) seg h
from-Equal n none none seg h = absurd (cc)
from-Equal n none (some t) seg h =
    let (a, e, f) = >>=-eq-ok (or_err (parse_addr t) unparsed_address) _ h in
    let (s, g, k) = >>=-eq-ok (new_segment_srv6_with_node_info a n) _ f in
    ap (λ x. segments_equal x x) (sym (ok_inj k)) ∙ srv6-Equal s

pub node_segment-Equal :
    (n : LsNode) (seg : Segment) → node_segment n ≡ ok seg → segments_equal seg seg ≡ true
unfolding node_segment
node_segment-Equal n seg h = from-Equal n (prefix_sid n.prefixes) (first_sid n.srv6_sids) seg h
