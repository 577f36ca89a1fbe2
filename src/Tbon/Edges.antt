-- ===== src/Tbon/Edges.antt =====
-- `dynpm_compute_local_tbon_edges`: the parent and the children of a vertex of the complete tree.
-- An id of -1, which stands for no vertex, is `none`.
use libdynpm.Base.{
  ℕ, zero, suc, ◌+◌, ◌-◌, ◌*◌, ◌/◌, ◌%◌, ◌^◌, ◌≤◌, ◌<◌, ◌≡◌, ◌≢◌, ◌↔◌, refl, ◌∙◌, ap, List, [], ◌∷◌,
  Option, none, some, ltb, leb, ◌==◌, if◌then◌else◌, get_elem?, length, arith, lt→ltb,
}
use native.Mathlib.Nat.{mod-lt, div-add-mod, div-le_self}
use libdynpm.Text.Outcome.{Outcome, done, fault, ◌>>=◌}

-- `*parent_id`; C divides by a degree of 0 only to fault.
unfoldable pub parent : ℕ → ℕ → Outcome (Option ℕ)
parent local_id degree =
    if local_id == 0
    then done none
    else if degree == 0
    then fault
    else done (some ((local_id - 1) / degree))

-- `child_id` in round `i`, if it is a vertex, where it does not exceed an `int`: the loop below
-- tests that.
unfoldable pub child : ℕ → ℕ → ℕ → ℕ → Option ℕ
child local_id degree total i =
    let child_id = degree * local_id + i + 1 in if leb total child_id then none else some child_id

-- The loop over the children, with the rounds left and the index. A child id beyond `int` overflows.
children_from : ℕ → ℕ → ℕ → ℕ → ℕ → Outcome (List (Option ℕ))
children_from local_id degree total zero i = done []
children_from local_id degree total (suc rounds) i =
    let rest = children_from local_id degree total rounds (i + 1) in
    if ltb (degree * local_id + i + 1) (2 ^ 31)
    then (do ids ← rest; done (child local_id degree total i ∷ ids))
    else fault

-- `*children_ids`
unfoldable pub children : ℕ → ℕ → ℕ → Outcome (List (Option ℕ))
unfolding children_from
children local_id degree total = children_from local_id degree total degree 0

-- The ids that no overflow spoils.
unfoldable pub ids_from : ℕ → ℕ → ℕ → ℕ → ℕ → List (Option ℕ)
ids_from local_id degree total zero i = []
ids_from local_id degree total (suc rounds) i =
    child local_id degree total i ∷ ids_from local_id degree total rounds (i + 1)

children_from-ids_from :
    (local_id degree total rounds i : ℕ)
    → degree * local_id + i + rounds < 2 ^ 31
    → children_from local_id degree total rounds i ≡ done (ids_from local_id degree total rounds i)
unfolding children_from ids_from
children_from-ids_from local_id degree total zero i h = refl
children_from-ids_from local_id degree total (suc rounds) i h = rw (
  lt→ltb (degree * local_id + i + 1) (2 ^ 31) (omega arith),
  children_from-ids_from local_id degree total rounds (i + 1) (omega arith),
)

pub children-ids_from :
    (local_id degree total : ℕ)
    → degree * local_id + degree < 2 ^ 31
    → children local_id degree total ≡ done (ids_from local_id degree total degree 0)
unfolding children
children-ids_from local_id degree total h =
    children_from-ids_from local_id degree total degree 0 (omega arith)

pub get_elem?-ids_from :
    (local_id degree total rounds i k : ℕ)
    → k < rounds
    → get_elem? (ids_from local_id degree total rounds i) k
      ≡ some (child local_id degree total (i + k))
unfolding ids_from
get_elem?-ids_from local_id degree total zero i k h = absurd (omega arith)
get_elem?-ids_from local_id degree total (suc rounds) i zero h =
    ap (λ j. some (child local_id degree total j)) (omega arith)
get_elem?-ids_from local_id degree total (suc rounds) i (suc k) h =
    get_elem?-ids_from local_id degree total rounds (i + 1) k (omega arith)
    ∙ ap (λ j. some (child local_id degree total j)) {y = i + suc k} (omega arith)

pub length-ids_from :
    (local_id degree total rounds i : ℕ) → length (ids_from local_id degree total rounds i) ≡ rounds
unfolding ids_from
length-ids_from local_id degree total zero i = refl
length-ids_from local_id degree total (suc rounds) i =
    ap suc (length-ids_from local_id degree total rounds (i + 1))

-- A vertex is the child of `p` at index `i` exactly if it has parent `p` and position `i`.
child_iff :
    (p degree total i c : ℕ)
    → (child p degree total i ≡ some c) ↔ (c ≡ degree * p + i + 1) × (c < total)
unfolding child
child_iff p degree total i c = ground arith

quotient_unique : (d q r n : ℕ) → r < d → n ≡ d * q + r → n / d ≡ q
quotient_unique d q r n h e = grind arith

-- The parent of a child, at an index below the degree, is the vertex itself.
pub parent-child :
    (p degree total i c : ℕ)
    → i < degree
    → child p degree total i ≡ some c
    → parent c degree ≡ done (some p)
unfolding parent child
parent-child p degree total i c h e =
    let same : c ≡ degree * p + i + 1 = ((child_iff p degree total i c).0 e).0 in
    let divides : (c - 1) / degree ≡ p = quotient_unique degree p i (c - 1) h (omega arith) in
    ground arith

pub parent_inv :
    (c degree p : ℕ)
    → parent c degree ≡ done (some p)
    → (c ≢ 0) × (degree ≢ 0) × (p ≡ (c - 1) / degree)
unfolding parent
parent_inv c degree p e = ground arith

-- A vertex below the total that has a parent is a child of it, at an index below the degree.
pub child-parent :
    (p degree total c : ℕ)
    → c < total
    → parent c degree ≡ done (some p)
    → (i : ℕ) × (i < degree) × (child p degree total i ≡ some c)
child-parent p degree total c h e =
    let (pos, positive, divides) = parent_inv c degree p e in
    let in_range : (c - 1) % degree < degree = mod-lt (c - 1) (omega arith) in
    (
      (c - 1) % degree,
      in_range,
      (child_iff p degree total ((c - 1) % degree) c).1
          (omega (arith, div-add-mod (c - 1) degree, ap (λ (k : ℕ). degree * k) divides), h),
    )

-- A vertex below the total has `p` as its parent if and only if it is a child of `p`, at an index below
-- the degree.
pub parent_iff :
    (p degree total c : ℕ)
    → c < total
    → (parent c degree ≡ done (some p))
      ↔ ((i : ℕ) × (i < degree) × (child p degree total i ≡ some c))
parent_iff p degree total c h =
    (child-parent p degree total c h, (λ (i, below, e). parent-child p degree total i c below e))

-- A vertex other than the root comes after its parent.
pub parent-lt : (c degree p : ℕ) → parent c degree ≡ done (some p) → p < c
parent-lt c degree p e =
    let (pos, positive, divides) = parent_inv c degree p e in
    omega (arith, div-le_self (c - 1) degree)

-- `Up degree c n p`: `n` steps to the parent lead from `c` to `p`.
pub data Up (degree : ℕ) (c : ℕ) : ℕ → ℕ → Type 0 where
  here : Up degree c 0 c
  up : {n p q : ℕ} → Up degree c n p → parent p degree ≡ done (some q) → Up degree c (suc n) q

climb :
    (degree c k n p : ℕ)
    → degree ≢ 0
    → p ≤ k
    → n + p ≤ c
    → Up degree c n p
    → (m : ℕ) × (m ≤ c) × Up degree c m 0
climb degree c k n zero d small far u = (n, omega arith, u)
climb degree c zero n (suc p) d small far u = absurd (omega arith)
climb degree c (suc k) n (suc p) d small far u =
    let above : parent (suc p) degree ≡ done (some ((suc p - 1) / degree)) = parent_of d in
    let q : (suc p - 1) / degree ≤ p = omega (arith, div-le_self (suc p - 1) degree) in
    climb degree c k (suc n) ((suc p - 1) / degree) d (omega arith) (omega arith) (up u above)
  where
    parent_of : degree ≢ 0 → parent (suc p) degree ≡ done (some ((suc p - 1) / degree))
    parent_of h = unfold parent in ground arith

-- In a tree of a degree other than 0, from every vertex the parents lead to the root, in at most as
-- many steps as its id.
pub root_reached : (degree c : ℕ) → degree ≢ 0 → (m : ℕ) × (m ≤ c) × Up degree c m 0
root_reached degree c d = climb degree c c 0 c d (omega arith) (omega arith) here
