-- ===== src/Table/SidValidate/Known.antt =====
-- The index of pkg/table/sid_validate.go has the labels that the database advertises, and no others.
use mathlib.Core.Path.{subst}
use pce_testing.Base.{
  ℕ, ◌<◌, ◌≡◌, ◌↔◌, ◌⊎◌, inl, inr, refl, sym, ap, true, List, [], ◌∷◌, some, arith, ◌==◌,
  Bool-cases, In,
}
use pce_testing.Table.Segment.{SegmentSrMpls, srmpls}
use pce_testing.Table.Ted.{Ted, LsNode}
use pce_testing.Table.SidValidate.{
  SidIndex, add_node_prefix_sids, add_link_sids, add_srv6_node_sids, add_nodes, empty_index,
  new_sid_index, has,
}
use pce_testing.Table.SidValidate.Labels.{
  IsLabelOf, Advertises, PrefixLabel, srgb_label_iff, has_label_iff, prefix_labels-In,
  node_sids_keep, link_labels-In,
}

node_prefix_sids-In :
    (idx : SidIndex) (node : LsNode) (x : ℕ)
    → In x (add_node_prefix_sids idx node).mpls_sids
      ↔ (In x idx.mpls_sids ⊎ ((0 < node.srgb_begin) × PrefixLabel node node.prefixes x))
unfolding add_node_prefix_sids
node_prefix_sids-In idx node x = elim (Bool-cases (node.srgb_begin == 0)) [
  | inl z ↦
      rw (z, add_node_prefix_sids)
        (λ i. inl i, λ s. elim s [ inl i ↦ i | inr (p, l) ↦ absurd (ground arith) ])
  | inr n ↦
      let positive : 0 < node.srgb_begin = ground arith in
      let labels = prefix_labels-In node node.prefixes idx.mpls_sids x in
      rw (n, add_node_prefix_sids)
        (
          λ i. elim (labels.0 i) [ inl old ↦ inl old | inr l ↦ inr (positive, l) ],
          λ s. elim s [ inl old ↦ labels.1 (inl old) | inr (p, l) ↦ labels.1 (inr l) ],
        )
]

abbrev of_node : SidIndex → LsNode → SidIndex
of_node idx node =
    add_srv6_node_sids (add_link_sids (add_node_prefix_sids idx node) node.links) node.srv6_sids

of_node-In :
    (idx : SidIndex) (node : LsNode) (x : ℕ)
    → In x (of_node idx node).mpls_sids ↔ (In x idx.mpls_sids ⊎ IsLabelOf node x)
of_node-In idx node x =
    let prefixes = node_prefix_sids-In idx node x in
    let links = link_labels-In (add_node_prefix_sids idx node) node.links x in
    let kept =
      node_sids_keep (add_link_sids (add_node_prefix_sids idx node) node.links) node.srv6_sids in
    (
      λ i. elim (links.0 (subst (In x) kept i)) [
        | inl early ↦ elim (prefixes.0 early) [
          | inl old ↦ inl old
          | inr (positive, (p, j, b, f)) ↦
              inr (inl (p, j, b, positive, (srgb_label_iff node p.sid_index x).0 f))
        ]
        | inr l ↦ inr (inr l)
      ],
      λ s. subst (In x) (sym kept) (
          links.1 (elim s [
            | inl old ↦ inl (prefixes.1 (inl old))
            | inr (inl (p, j, b, positive, f)) ↦
                inl
                  (prefixes.1 (inr (positive, (p, j, b, (srgb_label_iff node p.sid_index x).1 f))))
            | inr (inr l) ↦ inr l
          ])),
    )

nodes-In :
    (ted : Ted) (idx : SidIndex) (ns : List (List ℕ × ℕ)) (x : ℕ)
    → In x (add_nodes ted idx ns).mpls_sids ↔ (
        In x idx.mpls_sids ⊎ ((entry : List ℕ × ℕ) × In entry ns × IsLabelOf (ted.store entry.1) x))
unfolding add_nodes
nodes-In ted idx [] x = (λ i. inl i, λ s. elim s [ inl i ↦ i | inr (e, i, l) ↦ absurd i ])
nodes-In ted idx ((k, p) ∷ rest) x =
    let step = of_node-In idx (ted.store p) x in
    let later = nodes-In ted (of_node idx (ted.store p)) rest x in
    (
      λ i. elim (later.0 i) [
        | inl early ↦ elim (step.0 early) [ inl old ↦ inl old | inr l ↦ inr ((k, p), inl refl, l) ]
        | inr (e, j, l) ↦ inr (e, inr j, l)
      ],
      λ s. elim s [
        | inl old ↦ later.1 (inl (step.1 (inl old)))
        | inr (e, j, l) ↦ elim j [
          | inl here ↦ later.1 (
              inl (
                step.1 (inr (subst (λ q. IsLabelOf (ted.store q) x) (sym (ap (λ y. y.1) here)) l))))
          | inr there ↦ later.1 (inr (e, there, l))
        ]
      ],
    )

-- The index of a database has an SR-MPLS segment exactly when the database advertises its label: as
-- the adjacency SID of a link, or as a Prefix-SID of a node with an SRGB, within the SRGB and 20 bits.
pub has_srmpls_iff :
    (ted : Ted) (seg : SegmentSrMpls)
    → (has (new_sid_index (some ted)) (srmpls seg) ≡ true) ↔ Advertises ted seg.sid
unfolding has new_sid_index
has_srmpls_iff ted seg =
    let all = nodes-In ted empty_index ted.nodes seg.sid in
    let labels = has_label_iff (add_nodes ted empty_index ted.nodes).mpls_sids seg.sid in
    (
      λ h. elim (all.0 (labels.0 h)) [ inl i ↦ absurd i | inr found ↦ found ],
      λ found. labels.1 (all.1 (inr found)),
    )
