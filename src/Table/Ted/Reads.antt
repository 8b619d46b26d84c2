-- ===== src/Table/Ted/Reads.antt =====
-- What is read from a node or a link of pkg/table/ted.go is a value or an error, and never more than
-- what is there.
use pce_testing.Base.{
  ℕ, ◌+◌, ◌≤◌, ◌≡◌, ◌⊎◌, inl, inr, refl, Bool, true, false, List, [], ◌∷◌, Option, none, some,
  Result, ok, err, ◌>>=◌, or_err, All, In, arith, Bool-cases, ok_inj, some_inj, if◌then◌else◌,
}
use pce_testing.Base.Bytes.{u32}
use pce_testing.Net.{Addr, is6, bytes_eq}
use pce_testing.Net.Parse.{parse_addr}
use pce_testing.Strconv.{itoa, parse_uint32}
use pce_testing.Table.Policy.{MetricType}
use pce_testing.Table.Segment.{Segment, SegmentSrv6, srv6, new_segment_srv6, new_segment_srmpls}
use pce_testing.Table.Ted.{
  TedError, LsNode, LsSrv6Sid, Metric, metric_of, metric_type_eq, new_segment, with_sid_info,
  segment_from, srv6_with_node_info, new_segment_srv6_with_node_info, prefix_sid, first_sid,
  node_segment, find_node, unparsed_address, invalid_sid,
}

-- A value or an error.
abbrev pub Returns {ℓ} : {E : Type 0} {A : Type ℓ} → Result E A → Type ℓ
Returns {E} {A} r = ((a : A) × (r ≡ ok a)) ⊎ ((e : E) × (r ≡ err e))

or_err-Returns {ℓ} : {E : Type 0} {A : Type ℓ} (o : Option A) (e : E) → Returns (or_err o e)
or_err-Returns none e = inr (e, refl)
or_err-Returns (some a) e = inl (a, refl)

>>=-Returns {ℓ κ} :
    {E : Type 0} {A : Type ℓ} {B : Type κ} (m : Result E A) (f : A → Result E B)
    → Returns m
    → ((a : A) → Returns (f a))
    → Returns (m >>= f)
>>=-Returns m f (inl (a, e)) k = rw e (k a)
>>=-Returns m f (inr (x, e)) k = inr (x, rw e refl)

pub metric_of-Returns : (ms : List Metric) (t : MetricType) → Returns (metric_of ms t)
unfolding metric_of
metric_of-Returns [] t = inr (TedError.metric_not_defined, refl)
metric_of-Returns (m ∷ ms) t = elim (Bool-cases (metric_type_eq m.typ t)) [
  | inl e ↦ inl (m.value, rw e refl)
  | inr e ↦ rw e (metric_of-Returns ms t)
]

-- The metric of a link is one of its metrics.
pub metric_of_below :
    (ms : List Metric) (t : MetricType) (bound w : ℕ)
    → All (λ m. m.value ≤ bound) ms
    → metric_of ms t ≡ ok w
    → w ≤ bound
metric_of_below [] t bound w h e = absurd (unfold metric_of in cc)
metric_of_below (m ∷ ms) t bound w h e =
    by_test (metric_type_eq m.typ t) (unfold metric_of in e) (metric_of_below ms t bound w h.1)
  where
    by_test :
        (b : Bool)
        → (if b then ok m.value else metric_of ms t) ≡ ok w
        → (metric_of ms t ≡ ok w → w ≤ bound)
        → w ≤ bound
    by_test true f later = (let same = ok_inj f in let first = h.0 in omega arith)
    by_test false f later = later f

new_segment-Returns : (sid : List ℕ) → Returns (new_segment sid)
unfolding new_segment
new_segment-Returns sid = by_address (parse_addr sid)
  where
    by_number :
        Returns (
          or_err (parse_uint32 sid) invalid_sid >>= λ i. ok (Segment.srmpls (new_segment_srmpls i)))
    by_number =
        >>=-Returns (or_err (parse_uint32 sid) invalid_sid) _
          (or_err-Returns (parse_uint32 sid) invalid_sid)
          (λ i. inl (Segment.srmpls (new_segment_srmpls i), refl))

    by_test :
        (b : Bool) (a : Addr)
        → Returns (
            if b
            then ok (srv6 (new_segment_srv6 a))
            else (or_err (parse_uint32 sid) invalid_sid >>= λ i.
                ok (Segment.srmpls (new_segment_srmpls i))))
    by_test true a = inl (srv6 (new_segment_srv6 a), refl)
    by_test false a = by_number

    by_address :
        (o : Option Addr)
        → Returns (elim o [
          | none ↦ or_err (parse_uint32 sid) invalid_sid >>= λ i.
              ok (Segment.srmpls (new_segment_srmpls i))
          | some a ↦
              if is6 a
              then ok (srv6 (new_segment_srv6 a))
              else (or_err (parse_uint32 sid) invalid_sid >>= λ i.
                  ok (Segment.srmpls (new_segment_srmpls i)))
        ])
    by_address none = by_number
    by_address (some a) = by_test (is6 a) a

with_sid_info-Returns :
    (sid : Addr) (s : LsSrv6Sid) (ts : List (List ℕ)) (rest : Result TedError SegmentSrv6)
    → Returns rest
    → Returns (with_sid_info sid s ts rest)
unfolding with_sid_info
with_sid_info-Returns sid s [] rest h = h
with_sid_info-Returns sid s (first ∷ more) rest h =
    >>=-Returns (or_err (parse_addr first) unparsed_address) _
      (or_err-Returns (parse_addr first) unparsed_address) (λ a. inl (_, refl))

pub srv6_with_node_info-Returns :
    (sid : Addr) (ss : List LsSrv6Sid) → Returns (srv6_with_node_info sid ss)
unfolding srv6_with_node_info
srv6_with_node_info-Returns sid [] = inr (TedError.no_srv6_sids, refl)
srv6_with_node_info-Returns sid (s ∷ ss) =
    with_sid_info-Returns sid s s.sids (srv6_with_node_info sid ss)
      (srv6_with_node_info-Returns sid ss)

segment_from-Returns :
    (n : LsNode) (i : Option ℕ) (t : Option (List ℕ)) → Returns (segment_from n i t)
unfolding segment_from new_segment_srv6_with_node_info
segment_from-Returns n (some i) t = new_segment-Returns (itoa (u32 (n.srgb_begin + i)))
segment_from-Returns n none none = inr (TedError.no_node_sid, refl)
segment_from-Returns n none (some t) =
    >>=-Returns (or_err (parse_addr t) unparsed_address) _
      (or_err-Returns (parse_addr t) unparsed_address)
      (λ a.
        >>=-Returns (srv6_with_node_info a n.srv6_sids) _
          (srv6_with_node_info-Returns a n.srv6_sids) (λ seg. inl (srv6 seg, refl)))

pub node_segment-Returns : (n : LsNode) → Returns (node_segment n)
unfolding node_segment
node_segment-Returns n = segment_from-Returns n (prefix_sid n.prefixes) (first_sid n.srv6_sids)

pub found_listed :
    (ns : List (List ℕ × ℕ)) (k : List ℕ) (p : ℕ)
    → find_node ns k ≡ some p
    → (j : List ℕ) × In (j, p) ns
found_listed [] k p h = absurd (unfold find_node in cc)
found_listed ((j, q) ∷ ns) k p h =
    by_test (bytes_eq j k) (unfold find_node in h) (found_listed ns k p)
  where
    by_test :
        (b : Bool)
        → (if b then some q else find_node ns k) ≡ some p
        → (find_node ns k ≡ some p → (i : List ℕ) × In (i, p) ns)
        → (i : List ℕ) × In (i, p) ((j, q) ∷ ns)
    by_test true e later = (j, inl (let s : q ≡ p = some_inj e in λ i. (j, s i)))
    by_test false e later = let (i, there) = later e in (i, inr there)
