-- ===== src/Tbon/Vertex.antt =====
-- `dynpm_initialize_tbon_vertex`: the whole vertex.
use libdynpm.Base.{
  lt_of_get_elem?, take-all, inl, inr, ◌⊎◌, ℕ, zero, suc, ◌+◌, ◌-◌, ◌*◌, ◌/◌, le→ltb_false, ◌^◌,
  ◌≤◌, ◌<◌, ◌≡◌, ◌≢◌, refl, ◌∙◌, ap, sym, true, false, List, [], ◌∷◌, Bool, Option, none, some, ltb,
  ◌==◌, if◌then◌else◌, get_elem?, length, arith, take, drop, replicate,
}
use libdynpm.Text.Chars.{Bytes, same_text, same_text_sound, same_text_refl}
use libdynpm.Text.Outcome.{Outcome, done, fault, ◌>>=◌}
use libdynpm.Protocol.Tree.{CreateTbonMsg}
use libdynpm.Tbon.Edges.{parent, children, ids_from, children-ids_from}
use libdynpm.Tbon.Children.{find_id, child_hosts_from, child_hosts_lem}

-- `dynpm_tbon_vertex_t` without its locks; `parent_connection` is the address of a connection.
-- `children_hosts` holds the entries that are assigned.
pub record Vertex : Type 0 where
  pub id : ℕ
  pub degree : ℕ
  pub nodes : Bytes
  pub ready_count : ℕ
  pub total_nodes : ℕ
  pub local_host : Bytes
  pub parent_id : Option ℕ
  pub parent_connection : ℕ
  pub total_children : ℕ
  pub children_ids : List (Option ℕ)
  pub children_hosts : List Bytes
  pub children_connection_indexes : List ℕ
  pub process_data_reports : List (Option Bytes)
  pub children_done : ℕ
  pub initialized : Bool
  pub finalized : Bool

-- What `malloc` leaves in the fields that are not assigned for certain.
pub record Fresh : Type 0 where
  pub id : ℕ
  pub indexes : List ℕ

-- The vertex of a message, from its edges and the hosts of its children.
abbrev vertex_of :
    Bytes → ℕ → CreateTbonMsg → Fresh → ℕ → Option ℕ → List (Option ℕ) → List Bytes → Vertex
vertex_of hostname connection create fresh local_id parent_id ids found = record {
  id = local_id;
  degree = create.degree;
  nodes = create.nodes;
  ready_count = 0;
  total_nodes = create.total;
  local_host = hostname;
  parent_id = parent_id;
  parent_connection = connection;
  total_children = length found;
  children_ids = ids;
  children_hosts = found;
  children_connection_indexes = fresh.indexes;
  process_data_reports = replicate create.degree none;
  children_done = 0;
  initialized = false;
  finalized = false;
}

-- The edges of the vertex, and the hosts of its children.
unfoldable pub edges : ℕ → ℕ → ℕ → List Bytes → Outcome (Option ℕ × List (Option ℕ) × List Bytes)
edges local_id degree total host_array = do
  parent_id ← parent local_id degree
  ids ← children local_id degree total
  found ← child_hosts_from ids degree host_array total 0 []
  done (parent_id, ids, found)

-- `dynpm_initialize_tbon_vertex` on a host of the name `hostname`. The array of hosts is read up to
-- the total of the message.
unfoldable pub initialize : Bytes → ℕ → CreateTbonMsg → List Bytes → Fresh → Outcome Vertex
initialize hostname connection create hosts fresh =
    let host_array = take create.total hosts in
    let local_id = find_id hostname host_array 0 fresh.id in
    if ltb (length hosts) create.total then fault else (do
      (parent_id, ids, found) ← edges local_id create.degree create.total host_array
      done (vertex_of hostname connection create fresh local_id parent_id ids found))

-- A search that began at `node_id` ends at an index of the local host, or leaves the id as it was, and
-- the host is absent.
abbrev Search : Bytes → List Bytes → ℕ → ℕ → ℕ → Type 0
Search local_host hosts node_id id found =
    ((j : ℕ) × (found ≡ node_id + j) × (get_elem? hosts j ≡ some local_host))
    ⊎ ((found ≡ id) × ((i : ℕ) → get_elem? hosts i ≢ some local_host))

absent-cons :
    (local_host h : Bytes) (hosts : List Bytes)
    → same_text local_host h ≡ false
    → ((i : ℕ) → get_elem? hosts i ≢ some local_host)
    → (i : ℕ) → get_elem? (h ∷ hosts) i ≢ some local_host
absent-cons local_host h hosts other absent zero e =
    let same : h ≡ local_host = cc in
    let clash : same_text local_host local_host ≡ false = rw same at other in
    cc (same_text_refl local_host)
absent-cons local_host h hosts other absent (suc i) e = absent i e

Search-cons :
    (local_host h : Bytes) (hosts : List Bytes) (node_id id found : ℕ) (b : Bool)
    → same_text local_host h ≡ b
    → Search local_host hosts (node_id + 1) (if b then node_id else id) found
    → Search local_host (h ∷ hosts) node_id id found
Search-cons local_host h hosts node_id id found b t (inl (j, e, g)) = inl (suc j, omega arith, g)
Search-cons local_host h hosts node_id id found true t (inr (e, absent)) =
    inl (0, omega arith, ap some (sym (same_text_sound local_host h t)))
Search-cons local_host h hosts node_id id found false t (inr (e, absent)) =
    inr (e, absent-cons local_host h hosts t absent)

find_id_lem :
    (local_host : Bytes) (hosts : List Bytes) (node_id id : ℕ)
    → Search local_host hosts node_id id (find_id local_host hosts node_id id)
unfolding find_id
find_id_lem local_host [] node_id id = inr (refl, λ i e. cc)
find_id_lem local_host (h ∷ hosts) node_id id =
    Search-cons local_host h hosts node_id id _ _ refl
      (find_id_lem local_host hosts (node_id + 1) (if same_text local_host h then node_id else id))

-- If the local host is among the hosts, the id found is one of its places.
pub find_id-mem :
    (local_host : Bytes) (hosts : List Bytes) (id k : ℕ)
    → get_elem? hosts k ≡ some local_host
    → get_elem? hosts (find_id local_host hosts 0 id) ≡ some local_host
find_id-mem local_host hosts id k e = elim (find_id_lem local_host hosts 0 id) [
  | inl (j, found, g) ↦ ap (get_elem? hosts) {y = j} (omega arith) ∙ g
  | inr (kept, absent) ↦ absurd (absent k e)
]

-- The parent of a vertex, by its definition.
parent_of : ℕ → ℕ → Option ℕ
parent_of id degree = if id == 0 then none else some ((id - 1) / degree)

parent_total : (id degree : ℕ) → 0 < degree → parent id degree ≡ done (parent_of id degree)
unfolding parent parent_of
parent_total id degree h = ground arith

edges_lem :
    (id degree : ℕ) (hosts : List Bytes)
    → 0 < degree
    → degree * id + degree < 2 ^ 31
    → edges id degree (length hosts) hosts
      ≡ done (
        parent_of id degree,
        ids_from id degree (length hosts) degree 0,
        take degree (drop (degree * id + 1) hosts),
      )
unfolding edges
edges_lem id degree hosts pos small = rw (
  parent_total id degree pos,
  children-ids_from id degree (length hosts) small,
  child_hosts_lem id degree hosts pos,
)

next_block : (d i n : ℕ) → i < n → d * i + d ≤ d * n
next_block d i n h = grind arith

-- In an array of as many hosts as the message says, with the local host among them and a degree of at
-- least 1 that overflows no id, the vertex is made: its id is a place of the local host, its parent and
-- its children are those that `dynpm_compute_local_tbon_edges` gives for that id, and the hosts of its
-- children are the hosts at the ids of the children, in order, with their number.
pub initialize_lem :
    (hostname : Bytes) (connection k : ℕ) (create : CreateTbonMsg) (hosts : List Bytes)
    (fresh : Fresh)
    → length hosts ≡ create.total
    → get_elem? hosts k ≡ some hostname
    → 0 < create.degree
    → create.degree * create.total < 2 ^ 31
    → (v : Vertex) × (initialize hostname connection create hosts fresh ≡ done v)
      × (get_elem? hosts v.id ≡ some hostname)
      × (parent v.id create.degree ≡ done v.parent_id)
      × (children v.id create.degree create.total ≡ done v.children_ids)
      × (v.children_hosts ≡ take create.degree (drop (create.degree * v.id + 1) hosts))
      × (v.total_children ≡ length v.children_hosts)
unfolding initialize
initialize_lem hostname connection k create hosts fresh size e pos small =
    let id = find_id hostname hosts 0 fresh.id in
    let here : get_elem? hosts id ≡ some hostname = find_id-mem hostname hosts fresh.id k e in
    let bounded : create.degree * id + create.degree < 2 ^ 31 = omega (
      arith,
      next_block create.degree id (length hosts) (lt_of_get_elem? hosts id here),
      ap (λ (n : ℕ). create.degree * n) size,
    ) in
    (
      vertex_of hostname connection create fresh id (parent_of id create.degree)
          (ids_from id create.degree (length hosts) create.degree 0)
          (take create.degree (drop (create.degree * id + 1) hosts)),
      rw (← size) (
          rw (
            le→ltb_false (length hosts) (length hosts) (omega arith),
            take-all hosts,
            edges_lem id create.degree hosts pos bounded,
          )),
      here,
      parent_total id create.degree pos,
      rw (← size) (children-ids_from id create.degree (length hosts) bounded),
      refl,
      refl,
    )
