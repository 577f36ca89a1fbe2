-- ===== src/Tbon/Children.antt =====
-- `dynpm_initialize_tbon_vertex`: the vertex of this host, and the hosts of its children.
use native.Mathlib.Decide.{dec_lt}
use libdynpm.Base.{
  leb→le, leb_false→lt, lt→leb_false, Bool-cases, inl, inr, ℕ, zero, suc, ◌+◌, ◌-◌, ◌*◌, ◌≤◌, ◌<◌,
  ◌≡◌, refl, ◌∙◌, ap, sym, true, false, List, [], ◌∷◌, ◌++◌, Bool, Option, none, some, leb, ◌==◌,
  if◌then◌else◌, get_elem?, length, arith, take, drop, append_assoc, append-nil, length-append,
}
use libdynpm.Text.Chars.{Bytes, same_text}
use libdynpm.Text.Outcome.{Outcome, done, or_fault, ◌>>=◌}
use libdynpm.Tbon.Edges.{child, ids_from, get_elem?-ids_from}

-- The loop that looks for the local host: the last match counts.
unfoldable pub find_id : Bytes → List Bytes → ℕ → ℕ → ℕ
find_id local_host [] node_id id = id
find_id local_host (h ∷ hosts) node_id id =
    find_id local_host hosts (node_id + 1) (if same_text local_host h then node_id else id)

-- `node_id == children_ids[child_index]`
abbrev is_id : Option ℕ → ℕ → Bool
is_id none node_id = false
is_id (some id) node_id = id == node_id

-- One round: a child's host is copied from the array of hosts.
abbrev note_child : Bool → Option Bytes → List Bytes → Outcome (List Bytes)
note_child true host found = do h ← or_fault host; done (found ++ h ∷ [])
note_child false host found = done found

-- The loop that looks for the hosts of the children, with the rounds left; `found` holds the entries of
-- `children_hosts` up to `child_index`.
unfoldable pub child_hosts_from :
    List (Option ℕ) → ℕ → List Bytes → ℕ → ℕ → List Bytes → Outcome (List Bytes)
child_hosts_from ids degree hosts zero node_id found = done found
child_hosts_from ids degree hosts (suc rounds) node_id found = do
  id ← or_fault (get_elem? ids (length found))
  found' ← note_child (is_id id node_id) (get_elem? hosts node_id) found
  let rest = child_hosts_from ids degree hosts rounds (node_id + 1) found'
  if leb degree (length found') then done found' else rest

drop_step :
    (i : ℕ) (hosts : List Bytes)
    → i < length hosts
    → (h : Bytes) × (get_elem? hosts i ≡ some h) × (drop i hosts ≡ h ∷ drop (suc i) hosts)
drop_step i [] h = absurd (omega arith)
drop_step zero (x ∷ hosts) h = (x, refl, refl)
drop_step (suc i) (x ∷ hosts) h = drop_step i hosts (omega arith)

drop-all : (i : ℕ) (hosts : List Bytes) → length hosts ≤ i → drop i hosts ≡ []
drop-all zero [] h = refl
drop-all zero (x ∷ hosts) h = absurd (omega arith)
drop-all (suc i) [] h = refl
drop-all (suc i) (x ∷ hosts) h = drop-all i hosts (omega arith)

take-nil : (n : ℕ) → take {A = Bytes} n [] ≡ []
take-nil zero = refl
take-nil (suc n) = refl

is_id-child :
    (id degree total i node_id : ℕ)
    → node_id ≡ degree * id + i + 1
    → node_id < total
    → is_id (child id degree total i) node_id ≡ true
unfolding child
is_id-child id degree total i node_id e h = ground arith

not_is_id-child :
    (id degree total node_id : ℕ)
    → node_id < degree * id + 1
    → is_id (child id degree total 0) node_id ≡ false
unfolding child
not_is_id-child id degree total node_id h = ground arith

-- A list with one more entry at its end, and the entries that are left to take.
take_one_more :
    (n : ℕ) (found : List Bytes) (h : Bytes) (rest : List Bytes)
    → length found < n
    → found ++ take (n - length found) (h ∷ rest)
      ≡ (found ++ h ∷ []) ++ take (n - length (found ++ h ∷ [])) rest
take_one_more n found h rest few =
    ap (λ k. found ++ take k (h ∷ rest)) {y = suc (n - length found - 1)} (omega arith)
    ∙ ap (λ k. found ++ h ∷ take k rest) (omega (arith, length-append found (h ∷ [])))
    ∙ sym (append_assoc found (h ∷ []) _)

module _ (id degree : ℕ) (hosts : List Bytes) where
  abbrev ids : List (Option ℕ)
  ids = ids_from id degree (length hosts) degree 0

  abbrev first : ℕ
  first = degree * id + 1

  ids_lem : (k : ℕ) → k < degree → get_elem? ids k ≡ some (child id degree (length hosts) k)
  ids_lem k h =
      get_elem?-ids_from id degree (length hosts) degree 0 k h
      ∙ ap (λ j. some (child id degree (length hosts) j)) {y = k} (omega arith)

  -- From the first child on, each round finds a child.
  child_rounds :
      (rounds node_id : ℕ) (found : List Bytes)
      → node_id ≡ first + length found
      → length found < degree
      → node_id + rounds ≡ length hosts
      → child_hosts_from ids degree hosts rounds node_id found
        ≡ done (found ++ take (degree - length found) (drop node_id hosts))
  unfolding child_hosts_from
  child_rounds zero node_id found at few left =
      rw (drop-all node_id hosts (omega arith), take-nil, append-nil)
  child_rounds (suc rounds) node_id found at few left =
      let (h, got, e) = drop_step node_id hosts (omega arith) in
      let more : length (found ++ h ∷ []) ≡ suc (length found) =
        omega (arith, length-append found (h ∷ [])) in
      rw
        (
          ids_lem (length found) few,
          is_id-child id degree (length hosts) (length found) node_id (omega arith) (omega arith),
          got,
        )
        (elim (Bool-cases (leb degree (length (found ++ h ∷ [])))) [
          | inl full ↦
              rw (full, e)
                (ap done (
                  sym (
                    take_one_more degree found h (drop (suc node_id) hosts) few
                    ∙ ap (λ k. (found ++ h ∷ []) ++ take k (drop (suc node_id) hosts)) {y = 0}
                        (omega (arith, leb→le degree (length (found ++ h ∷ [])) full))
                    ∙ append-nil (found ++ h ∷ []))))
          | inr room ↦
              rw (room, e)
                (child_rounds rounds (node_id + 1) (found ++ h ∷ []) (omega arith)
                    (leb_false→lt _ _ room) (omega arith)
                  ∙ ap
                      (λ k. done (
                        (found ++ h ∷ [])
                        ++ take (degree - length (found ++ h ∷ [])) (drop k hosts)))
                      {y = suc node_id} (omega arith)
                  ∙ ap done (sym (take_one_more degree found h (drop (suc node_id) hosts) few)))
        ])

  -- Before the first child no round finds any.
  idle_rounds :
      (rounds node_id : ℕ)
      → node_id ≤ first
      → 0 < degree
      → node_id + rounds ≡ length hosts
      → child_hosts_from ids degree hosts rounds node_id [] ≡ done (take degree (drop first hosts))
  unfolding child_hosts_from
  idle_rounds zero node_id before pos left = rw (drop-all first hosts (omega arith), take-nil)
  idle_rounds (suc rounds) node_id before pos left = elim (dec_lt node_id first) [
    | yes early ↦
        rw
          (
            ids_lem 0 pos,
            not_is_id-child id degree (length hosts) node_id early,
            lt→leb_false degree 0 pos,
          )
          (idle_rounds rounds (node_id + 1) (omega arith) pos (omega arith))
    | no late ↦
        child_rounds (suc rounds) node_id [] (omega arith) pos left
        ∙ ap (λ k. done (take k (drop node_id hosts))) {y = degree} (omega arith)
        ∙ ap (λ k. done (take degree (drop k hosts))) {y = first} (omega arith)
  ]

  -- The loop finds the hosts of the children, in order.
  pub child_hosts_lem :
      0 < degree
      → child_hosts_from ids degree hosts (length hosts) 0 []
        ≡ done (take degree (drop first hosts))
  child_hosts_lem pos = idle_rounds (length hosts) 0 (omega arith) pos (omega arith)
