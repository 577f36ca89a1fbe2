-- ===== src/Tests/Tree.antt =====
-- The tree of the overlay network.
use libdynpm.Base.{
  ℕ, ◌≡◌, ◌↔◌, ◌≤◌, ◌<◌, refl, arith, [], ◌∷◌, List, some, get_elem?, take, drop, length, ◌+◌, ◌*◌,
}
use libdynpm.Text.Chars.{Bytes, codes}
use libdynpm.Text.Outcome.{done}
use libdynpm.Protocol.Tree.{CreateTbonMsg}
use libdynpm.Tbon.Edges.{parent, child, children, Up, parent_iff, root_reached}
use libdynpm.Tbon.Vertex.{Vertex, Fresh, initialize, initialize_lem}
use libdynpm.Tests.Data.{node7}

vertex_4_parent : parent 4 2 ≡ done (some 1)
unfolding parent
vertex_4_parent = refl

vertex_4_child : child 1 2 5 1 ≡ some 4
unfolding child
vertex_4_child = refl

parent_iff_example : (parent 4 2 ≡ done (some 1)) ↔ ((i : ℕ) × (i < 2) × (child 1 2 5 i ≡ some 4))
parent_iff_example = parent_iff 1 2 5 4 (omega arith)

root_reached_example : (m : ℕ) × (m ≤ 13) × Up 3 13 m 0
root_reached_example = root_reached 3 13 (omega arith)

abbrev five_hosts : List Bytes
five_hosts = codes "n0" ∷ node7 ∷ codes "n2" ∷ codes "n3" ∷ codes "n4" ∷ []

abbrev create : CreateTbonMsg
create = record { id = 1; degree = 2; total = 5; nodes = codes "n0,node7,n2,n3,n4" }

abbrev fresh : Fresh
fresh = record { id = 77; indexes = 0 ∷ 0 ∷ [] }

initialize_lem_example :
    (v : Vertex) × (initialize node7 9 create five_hosts fresh ≡ done v)
    × (get_elem? five_hosts v.id ≡ some node7)
    × (parent v.id 2 ≡ done v.parent_id)
    × (children v.id 2 5 ≡ done v.children_ids)
    × (v.children_hosts ≡ take 2 (drop (2 * v.id + 1) five_hosts))
    × (v.total_children ≡ length v.children_hosts)
initialize_lem_example =
    initialize_lem node7 9 1 create five_hosts fresh refl refl (omega arith) (omega arith)
