-- ===== src/Table/Ted/Update.antt =====
-- The updates of the database by the elements of a BGP-LS update, pkg/table/ted.go.
use pce_testing.Base.{
  ℕ, ◌+◌, Bool, false, not, ◌&&◌, ◌||◌, List, [], ◌∷◌, ◌++◌, none, some, ◌==◌, if◌then◌else◌,
}
use pce_testing.Net.{addr_eq}
use pce_testing.Table.Ted.{Ted, LsNode, LsLink, LsPrefix, Prefix, LsSrv6Sid, new_ls_node, find_node}

-- An element comes with what its pointers to nodes point to: objects of its own.
pub data TedElem : Type 0 where
  node_elem : LsNode → TedElem
  link_elem : (local remote : LsNode) → LsLink → TedElem
  prefix_elem : (local : LsNode) → LsPrefix → TedElem
  srv6_sid_elem : (local : LsNode) → LsSrv6Sid → TedElem

abbrev pub write : (ℕ → LsNode) → ℕ → LsNode → ℕ → LsNode
write store p n q = if p == q then n else store q

abbrev pub set_node : Ted → ℕ → LsNode → Ted
set_node ted p n = record ted { store = write ted.store p n }

-- `nodes[n.RouterID] = n`, of an ID that the map does not have.
unfoldable pub add_node : Ted → LsNode → Ted
add_node ted n = record {
  store = write ted.store ted.allocated n;
  allocated = ted.allocated + 1;
  nodes = ted.nodes ++ ((n.router_id, ted.allocated) ∷ []);
}

-- The node with the element's ID, which is made if there is none.
unfoldable pub ensure_node : Ted → LsNode → Ted × ℕ
unfolding find_node add_node new_ls_node
ensure_node ted n = elim (find_node ted.nodes n.router_id) [
  | some p ↦ (ted, p)
  | none ↦ (add_node ted (new_ls_node n.asn n.router_id), ted.allocated)
]

unfoldable pub update_node : Ted → ℕ → LsNode → Ted
unfolding find_node add_node
update_node ted cfg_asn n =
    if n.asn == cfg_asn
    then (elim (find_node ted.nodes n.router_id) [
      | some p ↦ set_node ted p (record (ted.store p) {
        hostname = n.hostname;
        isis_area_id = n.isis_area_id;
        srgb_begin = n.srgb_begin;
        srgb_end = n.srgb_end;
      })
      | none ↦ add_node ted n
    ])
    else ted

unfoldable pub add_link : LsNode → LsLink → LsNode
add_link n l = record n { links = n.links ++ (l ∷ []) }

unfoldable pub update_link : Ted → ℕ → LsNode → LsNode → LsLink → Ted
unfolding ensure_node add_link
update_link ted cfg_asn local remote l =
    if not (local.asn == cfg_asn) || not (remote.asn == cfg_asn)
    then ted
    else (let (ted1, p) = ensure_node ted local in
        let (ted2, q) = ensure_node ted1 remote in
        set_node ted2 p (add_link (ted2.store p) (record l { local_node = p; remote_node = q })))

-- Go compares the texts of prefixes, which are equal when the prefixes are.
unfoldable pub prefix_eq : Prefix → Prefix → Bool
unfolding addr_eq
prefix_eq p q = addr_eq p.addr q.addr && p.bits == q.bits

unfoldable pub has_prefix : List LsPrefix → Prefix → Bool
unfolding prefix_eq
has_prefix [] p = false
has_prefix (q ∷ qs) p = prefix_eq q.prefix p || has_prefix qs p

unfoldable pub update_prefix : Ted → ℕ → LsNode → LsPrefix → Ted
unfolding ensure_node has_prefix
update_prefix ted cfg_asn local lp =
    if local.asn == cfg_asn
    then (let (ted1, p) = ensure_node ted local in
        if has_prefix (ted1.store p).prefixes lp.prefix
        then ted1
        else set_node ted1 p
            (record (ted1.store p) { prefixes = (ted1.store p).prefixes ++ (lp ∷ []) }))
    else ted

unfoldable pub update_srv6_sid : Ted → ℕ → LsNode → LsSrv6Sid → Ted
unfolding ensure_node
update_srv6_sid ted cfg_asn local s =
    if local.asn == cfg_asn
    then (let (ted1, p) = ensure_node ted local in
        set_node ted1 p
          (record (ted1.store p) { srv6_sids = (ted1.store p).srv6_sids ++ (s ∷ []) }))
    else ted

unfoldable pub update_ted : Ted → ℕ → TedElem → Ted
unfolding update_node update_link update_prefix update_srv6_sid
update_ted ted cfg_asn (node_elem n) = update_node ted cfg_asn n
update_ted ted cfg_asn (link_elem local remote l) = update_link ted cfg_asn local remote l
update_ted ted cfg_asn (prefix_elem local lp) = update_prefix ted cfg_asn local lp
update_ted ted cfg_asn (srv6_sid_elem local s) = update_srv6_sid ted cfg_asn local s

unfoldable pub update : Ted → List TedElem → ℕ → Ted
unfolding update_ted
update ted [] asn = ted
update ted (e ∷ es) asn = update (update_ted ted asn e) es asn

unfoldable pub empty_ted : Ted
empty_ted = record { store = λ p. new_ls_node 0 []; allocated = 0; nodes = [] }
