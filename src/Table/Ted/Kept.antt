-- ===== src/Table/Ted/Kept.antt =====
-- Every update of the database of pkg/table/ted.go keeps it closed.
use pce_testing.Base.{
  ℕ, ◌≡◌, inl, inr, refl, List, [], ◌∷◌, some, ◌==◌, ==_iff, All, Bool-cases, Option-cases,
}
use pce_testing.Table.Ted.{Ted, LsNode, LsLink, LsPrefix, LsSrv6Sid, new_ls_node, find_node}
use pce_testing.Table.Ted.Update.{
  TedElem, node_elem, link_elem, prefix_elem, srv6_sid_elem, set_node, add_node, ensure_node,
  update_node, add_link, update_link, has_prefix, update_prefix, update_srv6_sid, update_ted,
  update, empty_ted,
}
use pce_testing.Table.Ted.Closed.{
  IsClosed, IsInside, find_kept, find_added, IsInside-append, set_node-IsClosed, add_node-IsClosed,
}

-- What making a node if there is none does: the map has the ID, and all that it had.
record IsEnsured (asn : ℕ) (ted : Ted) (n : LsNode) (ted' : Ted) (p : ℕ) : Type 0 where
  closed : IsClosed asn ted'
  there : find_node ted'.nodes n.router_id ≡ some p
  old : (id : List ℕ) (q : ℕ) → find_node ted.nodes id ≡ some q → find_node ted'.nodes id ≡ some q

module _ (asn : ℕ) where
  ensured :
      (ted : Ted) (n : LsNode)
      → IsClosed asn ted
      → n.asn ≡ asn
      → IsEnsured asn ted n (ensure_node ted n).0 (ensure_node ted n).1
  unfolding ensure_node
  ensured ted n c own = elim (Option-cases (find_node ted.nodes n.router_id)) [
    | inl e ↦
        let made : IsEnsured asn ted n (add_node ted (new_ls_node n.asn n.router_id))
            ted.allocated =
          record {
            closed =
                add_node-IsClosed asn ted (new_ls_node n.asn n.router_id) c
                  (unfold new_ls_node in own) (unfold new_ls_node in refl);
            there = unfold add_node new_ls_node in find_added n.router_id ted.allocated ted.nodes e;
            old = λ id q f.
                unfold add_node new_ls_node in find_kept n.router_id ted.allocated id ted.nodes q f;
          } in
        rw (e, ensure_node) made
    | inr (p, e) ↦
        let found : IsEnsured asn ted n ted p = record {
          closed = c;
          there = e;
          old = λ id q f. f;
        } in
        rw (e, ensure_node) found
  ]

  update_node-IsClosed :
      (ted : Ted) (n : LsNode)
      → n.links ≡ []
      → IsClosed asn ted
      → IsClosed asn (update_node ted asn n)
  unfolding update_node
  update_node-IsClosed ted n fresh c = elim (Bool-cases (n.asn == asn)) [
    | inr other ↦ rw other c
    | inl own ↦ elim (Option-cases (find_node ted.nodes n.router_id)) [
      | inl e ↦
          rw (own, e, update_node) (add_node-IsClosed asn ted n c ((==_iff n.asn asn).0 own) fresh)
      | inr (p, e) ↦
          rw (own, e, update_node)
            (set_node-IsClosed asn ted n.router_id p _ c e refl refl
              (c.kept n.router_id p e).inside)
    ]
  ]

  -- A change of the node that the element ensures, which keeps its identity.
  ensured-set_node :
      (ted : Ted) (n : LsNode) (ted' : Ted) (p : ℕ) (m : LsNode)
      → IsEnsured asn ted n ted' p
      → m.router_id ≡ (ted'.store p).router_id
      → m.asn ≡ (ted'.store p).asn
      → All (IsInside ted'.nodes p) m.links
      → IsClosed asn (set_node ted' p m)
  ensured-set_node ted n ted' p m s = set_node-IsClosed asn ted' n.router_id p m s.closed s.there

  update_prefix-IsClosed :
      (ted : Ted) (local : LsNode) (lp : LsPrefix)
      → IsClosed asn ted
      → IsClosed asn (update_prefix ted asn local lp)
  unfolding update_prefix
  update_prefix-IsClosed ted local lp c = elim (Bool-cases (local.asn == asn)) [
    | inr other ↦ rw other c
    | inl own ↦
        let s = ensured ted local c ((==_iff local.asn asn).0 own) in
        let ted1 = (ensure_node ted local).0 in
        let p = (ensure_node ted local).1 in
        elim (Bool-cases (has_prefix (ted1.store p).prefixes lp.prefix)) [
          | inl old ↦ rw (own, old, update_prefix) s.closed
          | inr new ↦
              rw (own, new, update_prefix)
                (ensured-set_node ted local ted1 p _ s refl refl
                  (s.closed.kept local.router_id p s.there).inside)
        ]
  ]

  update_srv6_sid-IsClosed :
      (ted : Ted) (local : LsNode) (sid : LsSrv6Sid)
      → IsClosed asn ted
      → IsClosed asn (update_srv6_sid ted asn local sid)
  unfolding update_srv6_sid
  update_srv6_sid-IsClosed ted local sid c = elim (Bool-cases (local.asn == asn)) [
    | inr other ↦ rw other c
    | inl own ↦
        let s = ensured ted local c ((==_iff local.asn asn).0 own) in
        rw (own, update_srv6_sid)
          (ensured-set_node ted local (ensure_node ted local).0 (ensure_node ted local).1 _ s refl
            refl (s.closed.kept local.router_id (ensure_node ted local).1 s.there).inside)
  ]

  update_link-IsClosed :
      (ted : Ted) (local remote : LsNode) (l : LsLink)
      → IsClosed asn ted
      → IsClosed asn (update_link ted asn local remote l)
  unfolding update_link add_link
  update_link-IsClosed ted local remote l c = elim (Bool-cases (local.asn == asn)) [
    | inr other ↦ rw other c
    | inl own ↦ elim (Bool-cases (remote.asn == asn)) [
      | inr other ↦ rw (own, other, update_link) c
      | inl both ↦
          let s = ensured ted local c ((==_iff local.asn asn).0 own) in
          let ted1 = (ensure_node ted local).0 in
          let p = (ensure_node ted local).1 in
          let t = ensured ted1 remote s.closed ((==_iff remote.asn asn).0 both) in
          let ted2 = (ensure_node ted1 remote).0 in
          let q = (ensure_node ted1 remote).1 in
          let at = t.old local.router_id p s.there in
          rw (own, both, update_link)
            (set_node-IsClosed asn ted2 local.router_id p
              (add_link (ted2.store p) (record l { local_node = p; remote_node = q })) t.closed at
              refl refl
              (IsInside-append ted2.nodes p (ted2.store p).links _
                (t.closed.kept local.router_id p at).inside (refl, (remote.router_id, t.there))))
    ]
  ]

-- An element that stands for a node comes with no links.
abbrev pub IsFresh : TedElem → Type 0
IsFresh (node_elem n) = n.links ≡ []
IsFresh (link_elem local remote l) = Unit {0}
IsFresh (prefix_elem local lp) = Unit {0}
IsFresh (srv6_sid_elem local sid) = Unit {0}

update_ted-IsClosed :
    (asn : ℕ) (ted : Ted) (e : TedElem)
    → IsFresh e
    → IsClosed asn ted
    → IsClosed asn (update_ted ted asn e)
unfolding update_ted
update_ted-IsClosed asn ted (node_elem n) h c = update_node-IsClosed asn ted n h c
update_ted-IsClosed asn ted (link_elem local remote l) h c =
    update_link-IsClosed asn ted local remote l c
update_ted-IsClosed asn ted (prefix_elem local lp) h c = update_prefix-IsClosed asn ted local lp c
update_ted-IsClosed asn ted (srv6_sid_elem local sid) h c =
    update_srv6_sid-IsClosed asn ted local sid c

-- The database stays closed under `Update`, whatever the elements: each node of the map has its key
-- as router ID and is of the configured AS, and each link starts at the node that holds it and ends
-- at a node of the map. The elements that stand for nodes are assumed to come with no links.
pub update-IsClosed :
    (asn : ℕ) (ted : Ted) (es : List TedElem)
    → All IsFresh es
    → IsClosed asn ted
    → IsClosed asn (update ted es asn)
unfolding update
update-IsClosed asn ted [] h c = c
update-IsClosed asn ted (e ∷ es) h c =
    update-IsClosed asn (update_ted ted asn e) es h.1 (update_ted-IsClosed asn ted e h.0 c)

pub empty_ted-IsClosed : (asn : ℕ) → IsClosed asn empty_ted
unfolding empty_ted
empty_ted-IsClosed asn = record { kept = λ id p e. absurd (unfold find_node in cc) }
