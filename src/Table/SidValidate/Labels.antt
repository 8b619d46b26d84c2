-- ===== src/Table/SidValidate/Labels.antt =====
-- Which labels the index of pkg/table/sid_validate.go has.
use mathlib.Core.Path.{subst}
use pce_testing.Base.{
  ℕ, ◌+◌, ◌≤◌, ◌<◌, ◌≡◌, ◌↔◌, ◌⊎◌, inl, inr, refl, sym, ap, ◌∙◌, Bool, true, false, not, ◌||◌, List,
  [], ◌∷◌, Option, none, some, arith, ◌==◌, ==_iff, leb, ltb, if◌then◌else◌, Bool-cases,
  Option-cases, some_inj, In,
}
use pce_testing.Base.Bytes.{u32}
use pce_testing.Net.{Addr, is6, addr_prefix}
use pce_testing.Net.Parse.{parse_addr}
use pce_testing.Table.Ted.{Ted, LsNode, LsLink, LsPrefix, LsSrv6Sid, Srv6EndxSid}
use pce_testing.Table.SidValidate.{
  SidIndex, mpls_label_max, srgb_label, add_label, prefix_labels, add_locator, add_address,
  add_parsed, add_srv6_sid, add_srv6_sids, add_srv6, add_link_sids, add_srv6_node_sids, has_label,
}

-- The index of a Prefix-SID is this label, within 20 bits and the node's SRGB.
abbrev pub IsSrgbLabel : LsNode → ℕ → ℕ → Type 0
IsSrgbLabel node sid_index label =
    (label ≡ node.srgb_begin + sid_index)
    × (label ≤ mpls_label_max)
    × ((node.srgb_end ≤ node.srgb_begin) ⊎ (label < node.srgb_end))

pub srgb_label_iff :
    (node : LsNode) (i label : ℕ) → (srgb_label node i ≡ some label) ↔ IsSrgbLabel node i label
unfolding srgb_label
srgb_label_iff node i label = elim (Bool-cases (ltb mpls_label_max (node.srgb_begin + i))) [
  | inl over ↦
      let value : srgb_label node i ≡ none = rw over refl in
      (λ h. absurd (cc), λ h. absurd (let (e, le, s) = h in ground arith))
  | inr fits ↦
      let small : node.srgb_begin + i ≤ mpls_label_max = ground arith in
      let whole : u32 (node.srgb_begin + i) ≡ node.srgb_begin + i = omega arith in
      elim (Bool-cases (ltb node.srgb_begin node.srgb_end)) [
        | inr no_range ↦
            let value : srgb_label node i ≡ some (u32 (node.srgb_begin + i)) =
              rw (fits, no_range) refl in
            (
              λ h.
                  let same = some_inj (sym value ∙ h) in
                  (omega arith, omega arith, inl (ground arith)),
              λ h. value ∙ ap some (whole ∙ sym h.0),
            )
        | inl range ↦ elim (Bool-cases (leb node.srgb_end (node.srgb_begin + i))) [
          | inl past ↦
              let value : srgb_label node i ≡ none = rw (fits, range, past) refl in
              (
                λ h. absurd (cc),
                λ h.
                    absurd (
                      let (e, le, s) = h in elim s [ inl a ↦ ground arith | inr a ↦ ground arith ]),
              )
          | inr within ↦
              let value : srgb_label node i ≡ some (u32 (node.srgb_begin + i)) =
                rw (fits, range, within) refl in
              (
                λ h.
                    let same = some_inj (sym value ∙ h) in
                    (omega arith, omega arith, inr (ground arith)),
                λ h. value ∙ ap some (whole ∙ sym h.0),
              )
        ]
      ]
]

-- A label of a node: of one of its Prefix-SIDs, if it has an SRGB, or the adjacency SID of a link.
abbrev pub IsLabelOf : LsNode → ℕ → Type 0
IsLabelOf node label =
    ((p : LsPrefix) × In p node.prefixes
      × (p.has_sid_index ≡ true)
      × (0 < node.srgb_begin)
      × IsSrgbLabel node p.sid_index label)
    ⊎ ((l : LsLink) × In l node.links × (0 < l.adj_sid) × (l.adj_sid ≡ label))

abbrev pub Advertises : Ted → ℕ → Type 0
Advertises ted label =
    (entry : List ℕ × ℕ) × In entry ted.nodes × IsLabelOf (ted.store entry.1) label

pub has_label_iff : (ms : List ℕ) (x : ℕ) → (has_label ms x ≡ true) ↔ In x ms
has_label_iff [] x = (λ h. absurd (cc), λ i. absurd i)
has_label_iff (m ∷ ms) x = (
  λ h. elim (Bool-cases (m == x)) [
    | inl e ↦ inl ((==_iff m x).0 e)
    | inr e ↦ inr ((has_label_iff ms x).0 (sym (ap (λ b. b || has_label ms x) e) ∙ h))
  ],
  λ i. elim i [
    | inl here ↦ rw ((==_iff m x).1 here) refl
    | inr there ↦ elim (Bool-cases (m == x)) [
      | inl e ↦ rw e refl
      | inr e ↦ rw e ((has_label_iff ms x).1 there)
    ]
  ],
)

one_more :
    (b : Bool) (o : Option ℕ) (sids : List ℕ) (x : ℕ)
    → In x (if b then add_label o sids else sids) ↔ (In x sids ⊎ ((b ≡ true) × (o ≡ some x)))
one_more false o sids x = (λ i. inl i, λ s. elim s [ inl i ↦ i | inr (e, f) ↦ absurd (cc) ])
one_more true none sids x = (λ i. inl i, λ s. elim s [ inl i ↦ i | inr (e, f) ↦ absurd (cc) ])
one_more true (some y) sids x = (
  λ i. elim i [ inl here ↦ inr (refl, ap some here) | inr there ↦ inl there ],
  λ s. elim s [ inl i ↦ inr i | inr (e, f) ↦ inl (some_inj f) ],
)

abbrev pub PrefixLabel : LsNode → List LsPrefix → ℕ → Type 0
PrefixLabel node ps x =
    (p : LsPrefix) × In p ps × (p.has_sid_index ≡ true) × (srgb_label node p.sid_index ≡ some x)

pub prefix_labels-In :
    (node : LsNode) (ps : List LsPrefix) (sids : List ℕ) (x : ℕ)
    → In x (prefix_labels node ps sids) ↔ (In x sids ⊎ PrefixLabel node ps x)
unfolding prefix_labels
prefix_labels-In node [] sids x =
    (λ i. inl i, λ s. elim s [ inl i ↦ i | inr (p, i, b, f) ↦ absurd i ])
prefix_labels-In node (p ∷ ps) sids x =
    let now = if p.has_sid_index then add_label (srgb_label node p.sid_index) sids else sids in
    let step = one_more p.has_sid_index (srgb_label node p.sid_index) sids x in
    let rest = prefix_labels-In node ps now x in
    (
      λ i. elim (rest.0 i) [
        | inl early ↦ elim (step.0 early) [
          | inl old ↦ inl old
          | inr (b, f) ↦ inr (p, inl refl, b, f)
        ]
        | inr (q, j, b, f) ↦ inr (q, inr j, b, f)
      ],
      λ s. elim s [
        | inl old ↦ rest.1 (inl (step.1 (inl old)))
        | inr (q, j, b, f) ↦ elim j [
          | inl here ↦ rest.1 (
              inl (
                step.1 (
                  inr (
                    ap (λ k. k.has_sid_index) here ∙ b,
                    ap (λ k. srgb_label node k.sid_index) here ∙ f,
                  ))))
          | inr there ↦ rest.1 (inr (q, there, b, f))
        ]
      ],
    )

locator_keeps :
    (idx : SidIndex) (o : Option (Addr × ℕ)) → (add_locator idx o).mpls_sids ≡ idx.mpls_sids
unfolding add_locator
locator_keeps idx none = refl
locator_keeps idx (some p) = refl

parsed_keeps :
    (n : ℕ) (idx : SidIndex) (o : Option Addr) → (add_parsed n idx o).mpls_sids ≡ idx.mpls_sids
unfolding add_parsed add_address
parsed_keeps n idx none = refl
parsed_keeps n idx (some a) = by_tests (not (is6 a)) (n == 0 || ltb 128 n)
  where
    by_tests :
        (b c : Bool)
        → (if b
            then idx
            else if c
            then add_address idx a
            else add_locator (add_address idx a) (addr_prefix a n)).mpls_sids
          ≡ idx.mpls_sids
    by_tests true c = refl
    by_tests false true = refl
    by_tests false false = locator_keeps (add_address idx a) (addr_prefix a n)

sid_keeps : (n : ℕ) (idx : SidIndex) (s : List ℕ) → (add_srv6_sid n idx s).mpls_sids ≡ idx.mpls_sids
unfolding add_srv6_sid
sid_keeps n idx s = parsed_keeps n idx (parse_addr s)

sids_keep :
    (n : ℕ) (idx : SidIndex) (ss : List (List ℕ))
    → (add_srv6_sids n idx ss).mpls_sids ≡ idx.mpls_sids
unfolding add_srv6_sids
sids_keep n idx [] = refl
sids_keep n idx (s ∷ ss) = sids_keep n (add_srv6_sid n idx s) ss ∙ sid_keeps n idx s

pub node_sids_keep :
    (idx : SidIndex) (ss : List LsSrv6Sid) → (add_srv6_node_sids idx ss).mpls_sids ≡ idx.mpls_sids
unfolding add_srv6_node_sids add_srv6
node_sids_keep idx [] = refl
node_sids_keep idx (s ∷ ss) =
    node_sids_keep (add_srv6 idx s.sids s.sid_structure) ss
    ∙ sids_keep (s.sid_structure.local_block + s.sid_structure.local_node) idx s.sids

abbrev pub LinkLabel : List LsLink → ℕ → Type 0
LinkLabel ls x = (l : LsLink) × In l ls × (0 < l.adj_sid) × (l.adj_sid ≡ x)

abbrev with_adjacency : SidIndex → LsLink → SidIndex
with_adjacency idx l =
    if not (l.adj_sid == 0) then record idx { mpls_sids = l.adj_sid ∷ idx.mpls_sids } else idx

adjacency-In :
    (idx : SidIndex) (l : LsLink) (x : ℕ)
    → In x (with_adjacency idx l).mpls_sids
      ↔ (In x idx.mpls_sids ⊎ ((0 < l.adj_sid) × (l.adj_sid ≡ x)))
adjacency-In idx l x = elim (Bool-cases (l.adj_sid == 0)) [
  | inl z ↦ rw z (λ i. inl i, λ s. elim s [ inl i ↦ i | inr (p, e) ↦ absurd (ground arith) ])
  | inr n ↦
      let positive : 0 < l.adj_sid = ground arith in
      rw n (
        λ i. elim i [ inl here ↦ inr (positive, here) | inr there ↦ inl there ],
        λ s. elim s [ inl i ↦ inr i | inr (p, e) ↦ inl e ],
      )
]

abbrev with_endx : SidIndex → Option Srv6EndxSid → SidIndex
unfolding add_srv6
with_endx idx none = idx
with_endx idx (some x) = add_srv6 idx x.sids x.srv6_sid_structure

endx_keeps : (idx : SidIndex) (o : Option Srv6EndxSid) → (with_endx idx o).mpls_sids ≡ idx.mpls_sids
unfolding with_endx add_srv6
endx_keeps idx none = refl
endx_keeps idx (some x) =
    sids_keep (x.srv6_sid_structure.local_block + x.srv6_sid_structure.local_node) idx x.sids

link_step :
    (idx : SidIndex) (l : LsLink) (ls : List LsLink)
    → add_link_sids idx (l ∷ ls)
      ≡ add_link_sids (with_endx (with_adjacency idx l) l.srv6_endx_sid) ls
unfolding add_link_sids with_endx
link_step idx l ls = elim (Option-cases l.srv6_endx_sid) [
  | inl e ↦ rw e refl
  | inr (x, e) ↦ rw e refl
]

pub link_labels-In :
    (idx : SidIndex) (ls : List LsLink) (x : ℕ)
    → In x (add_link_sids idx ls).mpls_sids ↔ (In x idx.mpls_sids ⊎ LinkLabel ls x)
unfolding add_link_sids
link_labels-In idx [] x = (λ i. inl i, λ s. elim s [ inl i ↦ i | inr (l, i, p, e) ↦ absurd i ])
link_labels-In idx (l ∷ ls) x =
    let now = with_endx (with_adjacency idx l) l.srv6_endx_sid in
    let kept = endx_keeps (with_adjacency idx l) l.srv6_endx_sid in
    let step = adjacency-In idx l x in
    let rest = link_labels-In now ls x in
    (
      λ i. elim (rest.0 (subst (λ r. In x r.mpls_sids) (link_step idx l ls) i)) [
        | inl early ↦ elim (step.0 (subst (In x) kept early)) [
          | inl old ↦ inl old
          | inr (p, e) ↦ inr (l, inl refl, p, e)
        ]
        | inr (k, j, p, e) ↦ inr (k, inr j, p, e)
      ],
      λ s.
          subst (λ r. In x r.mpls_sids) (sym (link_step idx l ls))
            (elim s [
              | inl old ↦ rest.1 (inl (subst (In x) (sym kept) (step.1 (inl old))))
              | inr (k, j, p, e) ↦ elim j [
                | inl here ↦
                    let adj = ap (λ m. m.adj_sid) here in
                    rest.1 (inl (subst (In x) (sym kept) (step.1 (inr (omega arith, adj ∙ e)))))
                | inr there ↦ rest.1 (inr (k, there, p, e))
              ]
            ]),
    )
