-- ===== src/Table/SidValidate.antt =====
-- The validation of segment lists, pkg/table/sid_validate.go. A set is the list of its members, and
-- what the index is asked is whether a value is one of them. The text of a missing segment is
-- output, so that the segment stands for it.
pub mod Labels
pub mod Known
pub mod Missing
pub mod Families
use pce_testing.Base.{
  ℕ, zero, suc, ◌+◌, Bool, true, false, not, ◌&&◌, ◌||◌, List, [], ◌∷◌, ◌++◌, Option, none, some,
  ◌==◌, leb, ltb, if◌then◌else◌,
}
use pce_testing.Base.Bytes.{u32}
use pce_testing.Net.{Addr, is6, addr_eq, addr_prefix, prefix_contains}
use pce_testing.Net.Parse.{parse_addr}
use pce_testing.Table.Segment.{
  Segment, SegmentSrv6, SegmentSrMpls, srv6, srmpls, foreign, absent, SegmentFamily, unknown_family,
  srv6_family, srmpls_family, segment_family,
}
use pce_testing.Table.Ted.{Ted, LsNode, LsLink, LsPrefix, LsSrv6Sid, SidStructure, Prefix}

abbrev pub mpls_label_max : ℕ
mpls_label_max = 0xFFFFF

abbrev srv6_sid_bit_length : ℕ
srv6_sid_bit_length = 128

pub record SidIndex : Type 0 where
  pub mpls_sids : List ℕ
  pub srv6_sids : List Addr
  pub srv6_locators : List Prefix

pub record MissingSegment : Type 0 where
  pub hop : ℕ
  pub sid : Segment

-- A Prefix-SID index as a label, unless it is out of range.
unfoldable pub srgb_label : LsNode → ℕ → Option ℕ
srgb_label node sid_index =
    let label = node.srgb_begin + sid_index in
    if ltb mpls_label_max label
    then none
    else if ltb node.srgb_begin node.srgb_end && leb node.srgb_end label
    then none
    else some (u32 label)

abbrev add_label : Option ℕ → List ℕ → List ℕ
add_label none sids = sids
add_label (some label) sids = label ∷ sids

unfoldable pub prefix_labels : LsNode → List LsPrefix → List ℕ → List ℕ
unfolding srgb_label
prefix_labels node [] sids = sids
prefix_labels node (p ∷ ps) sids =
    prefix_labels node ps
      (if p.has_sid_index then add_label (srgb_label node p.sid_index) sids else sids)

unfoldable pub add_node_prefix_sids : SidIndex → LsNode → SidIndex
unfolding prefix_labels
add_node_prefix_sids idx node =
    if node.srgb_begin == 0
    then idx
    else record idx { mpls_sids = prefix_labels node node.prefixes idx.mpls_sids }

unfoldable pub add_locator : SidIndex → Option (Addr × ℕ) → SidIndex
add_locator idx none = idx
add_locator idx (some p) = record idx {
  srv6_locators = record { addr = p.0; bits = p.1 } ∷ idx.srv6_locators;
}

unfoldable pub add_address : SidIndex → Addr → SidIndex
add_address idx addr = record idx { srv6_sids = addr ∷ idx.srv6_sids }

-- The exact SID, and its locator.
unfoldable pub add_parsed : ℕ → SidIndex → Option Addr → SidIndex
unfolding add_locator add_address addr_prefix
add_parsed loc_bits idx none = idx
add_parsed loc_bits idx (some addr) =
    if not (is6 addr)
    then idx
    else if loc_bits == 0 || ltb srv6_sid_bit_length loc_bits
    then add_address idx addr
    else add_locator (add_address idx addr) (addr_prefix addr loc_bits)

unfoldable pub add_srv6_sid : ℕ → SidIndex → List ℕ → SidIndex
unfolding add_parsed parse_addr
add_srv6_sid loc_bits idx s = add_parsed loc_bits idx (parse_addr s)

unfoldable pub add_srv6_sids : ℕ → SidIndex → List (List ℕ) → SidIndex
unfolding add_srv6_sid
add_srv6_sids loc_bits idx [] = idx
add_srv6_sids loc_bits idx (s ∷ ss) = add_srv6_sids loc_bits (add_srv6_sid loc_bits idx s) ss

unfoldable pub add_srv6 : SidIndex → List (List ℕ) → SidStructure → SidIndex
unfolding add_srv6_sids
add_srv6 idx sids st = add_srv6_sids (st.local_block + st.local_node) idx sids

unfoldable pub add_link_sids : SidIndex → List LsLink → SidIndex
unfolding add_srv6
add_link_sids idx [] = idx
add_link_sids idx (l ∷ ls) =
    let with_adj =
      if not (l.adj_sid == 0) then record idx { mpls_sids = l.adj_sid ∷ idx.mpls_sids } else idx in
    add_link_sids
      (elim l.srv6_endx_sid [
        | none ↦ with_adj
        | some x ↦ add_srv6 with_adj x.sids x.srv6_sid_structure
      ])
      ls

unfoldable pub add_srv6_node_sids : SidIndex → List LsSrv6Sid → SidIndex
unfolding add_srv6
add_srv6_node_sids idx [] = idx
add_srv6_node_sids idx (s ∷ ss) = add_srv6_node_sids (add_srv6 idx s.sids s.sid_structure) ss

unfoldable pub add_nodes : Ted → SidIndex → List (List ℕ × ℕ) → SidIndex
unfolding add_node_prefix_sids add_link_sids add_srv6_node_sids
add_nodes ted idx [] = idx
add_nodes ted idx ((k, p) ∷ rest) =
    let node = ted.store p in
    add_nodes ted
      (add_srv6_node_sids (add_link_sids (add_node_prefix_sids idx node) node.links) node.srv6_sids)
      rest

abbrev empty_index : SidIndex
empty_index = record { mpls_sids = []; srv6_sids = []; srv6_locators = [] }

unfoldable pub new_sid_index : Option Ted → SidIndex
unfolding add_nodes
new_sid_index none = empty_index
new_sid_index (some ted) = add_nodes ted empty_index ted.nodes

abbrev pub has_label : List ℕ → ℕ → Bool
has_label [] sid = false
has_label (m ∷ ms) sid = m == sid || has_label ms sid

unfoldable pub has_addr : List Addr → Addr → Bool
unfolding addr_eq
has_addr [] a = false
has_addr (b ∷ bs) a = addr_eq b a || has_addr bs a

-- The number of bits of the locator that a SID structure declares, 0 if there is none.
unfoldable pub declared_bits : Option (List ℕ) → ℕ
declared_bits (some (block ∷ node ∷ func ∷ arg ∷ [])) = block + node
declared_bits _ = 0

unfoldable pub has_locator : List Prefix → ℕ → Addr → Bool
unfolding prefix_contains
has_locator [] loc_bits sid = false
has_locator (loc ∷ locs) loc_bits sid =
    prefix_contains loc.addr loc.bits sid && not (not (loc_bits == 0) && ltb loc_bits loc.bits)
    || has_locator locs loc_bits sid

unfoldable pub has_srv6 : SidIndex → SegmentSrv6 → Bool
unfolding has_addr declared_bits has_locator
has_srv6 idx s =
    if has_addr idx.srv6_sids s.sid
    then true
    else if not s.u_sid
    then false
    else has_locator idx.srv6_locators (declared_bits s.structure) s.sid

unfoldable pub has : SidIndex → Segment → Bool
unfolding has_srv6
has idx (srmpls s) = has_label idx.mpls_sids s.sid
has idx (srv6 s) = has_srv6 idx s
has idx (foreign t) = false
has idx absent = false

-- The segments from a hop on that the index does not have.
unfoldable pub missing_from : SidIndex → ℕ → List Segment → List MissingSegment
unfolding has
missing_from idx i [] = []
missing_from idx i (seg ∷ segs) =
    let rest = missing_from idx (i + 1) segs in
    if not (has idx seg) then record { hop = i + 1; sid = seg } ∷ rest else rest

unfoldable pub missing_segments : Option Ted → List Segment → List MissingSegment
unfolding new_sid_index missing_from
missing_segments ted segs = missing_from (new_sid_index ted) 0 segs

abbrev out_of_range : Segment → Bool
out_of_range (srmpls s) = ltb mpls_label_max s.sid
out_of_range _ = false

unfoldable pub out_of_range_from : ℕ → List Segment → List MissingSegment
out_of_range_from i [] = []
out_of_range_from i (seg ∷ segs) =
    let rest = out_of_range_from (i + 1) segs in
    if out_of_range seg then record { hop = i + 1; sid = seg } ∷ rest else rest

unfoldable pub out_of_range_srmpls_labels : List Segment → List MissingSegment
unfolding out_of_range_from
out_of_range_srmpls_labels segs = out_of_range_from 0 segs

abbrev family_eq : SegmentFamily → SegmentFamily → Bool
family_eq unknown_family unknown_family = true
family_eq srv6_family srv6_family = true
family_eq srmpls_family srmpls_family = true
family_eq _ _ = false

abbrev is_nil : Segment → Bool
is_nil absent = true
is_nil _ = false

unfoldable pub has_unknown_segment_type : List Segment → Bool
unfolding segment_family
has_unknown_segment_type [] = false
has_unknown_segment_type (seg ∷ segs) =
    let rest = has_unknown_segment_type segs in
    if is_nil seg
    then rest
    else if family_eq (segment_family seg) unknown_family
    then true
    else rest

-- The family of the segments so far.
unfoldable pub mixed_from : SegmentFamily → List Segment → Bool
unfolding segment_family
mixed_from family [] = false
mixed_from family (seg ∷ segs) =
    let current = segment_family seg in
    let rest = mixed_from family segs in
    let from_here = mixed_from current segs in
    if is_nil seg
    then rest
    else if family_eq current unknown_family
    then rest
    else if family_eq family unknown_family
    then from_here
    else if not (family_eq family current)
    then true
    else rest

unfoldable pub has_mixed_segment_types : List Segment → Bool
unfolding mixed_from
has_mixed_segment_types segs = mixed_from unknown_family segs
