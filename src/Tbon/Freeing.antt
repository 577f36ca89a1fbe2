-- ===== src/Tbon/Freeing.antt =====
-- `dynpm_free_tbon_vertex` of src/network/tbon.c. The words of a vertex are `nodes`, `local_host`,
-- `children_ids`, `children_hosts`, `children_connection_indexes`, `total_children` and
-- `process_data_reports`; those of the array of reports are its payloads.
use libdynpm.Base.{
  ℕ, zero, suc, ◌+◌, ◌≡◌, ◌≢◌, ◌∙◌, refl, ap, sym, false, [], ◌∷◌, ◌++◌, List, some, get_elem?,
  get_elem?-append, length, length-append, append_assoc, ◌==◌, if◌then◌else◌, arith,
}
use libdynpm.Text.Outcome.{Outcome, done, ◌>>=◌}
use libdynpm.Memory.{Heap, load, free, free_field, free_fields}
use libdynpm.Memory.Blocks.{
  release, without, Differs, AreBlocks, OnlyFreed, release-other, AreBlocks-release,
  AreBlocks-apart, without-append, without-OnlyFreed, All-right,
}
use libdynpm.Memory.Freeing.{free_lem, load_lem, free_field_lem, free_fields_lem}

-- The loop over the reports, whose first argument is the number of passes that are left
unfoldable pub free_payloads : ℕ → ℕ → ℕ → Heap → Outcome Heap
free_payloads zero i v h = done h
free_payloads (suc n) i v h = do
  reports ← load v 6 h
  h' ← free_field reports i h
  free_payloads n (i + 1) v h'

unfoldable pub free_tbon_vertex : ℕ → Heap → Outcome Heap
unfolding free_payloads
free_tbon_vertex v h = if v == 0 then done h else (do
  h₁ ← free_fields v (0 ∷ 1 ∷ 2 ∷ 3 ∷ 4 ∷ []) h
  total_children ← load v 5 h₁
  reports ← load v 6 h₁
  let freed = (do h₂ ← free_payloads total_children 0 v h₁; free reports h₂)
  h₃ ← (if reports == 0 then done h₁ else freed)
  free v h₃)

free_payloads_lem :
    (ps pre more words : List ℕ) (v reports : ℕ) (h : Heap)
    → h v ≡ some words
    → get_elem? words 6 ≡ some reports
    → h reports ≡ some (pre ++ (ps ++ more))
    → AreBlocks (ps ++ reports ∷ v ∷ []) h
    → (free_payloads (length ps) (length pre) v h ≡ done (without ps h))
      × AreBlocks (reports ∷ v ∷ []) (without ps h)
unfolding free_payloads without
free_payloads_lem [] pre more words v reports h e at array blocks = (refl, blocks)
free_payloads_lem (p ∷ ps) pre more words v reports h e at array (live, apart, blocks) =
    let others = All-right (Differs p) ps (reports ∷ v ∷ []) apart in
    let after : length (pre ++ p ∷ []) ≡ length pre + 1 =
      omega (arith, length-append pre (p ∷ [])) in
    let (rest, left) =
      free_payloads_lem ps (pre ++ p ∷ []) more words v reports (release p h)
        (release-other p v h others.1.0 ∙ e) at
        (release-other p reports h others.0
          ∙ array
          ∙ ap some (sym (append_assoc pre (p ∷ []) (ps ++ more))))
        (AreBlocks-release p (ps ++ reports ∷ v ∷ []) h apart blocks) in
    (
      rw
          (
            load_lem v 6 reports words h e at,
            free_field_lem reports (length pre) p (pre ++ p ∷ (ps ++ more)) h array
                (get_elem?-append pre (ps ++ more) p) live,
          )
          (ap (λ k. free_payloads (length ps) k v (release p h)) (sym after) ∙ rest),
      left,
    )

-- A vertex at `v`: five pointers, the count of its children, and the array of reports with a
-- payload for each child, each `NULL` or a block of its own.
pub record IsVertexAt (v : ℕ) (five : List ℕ) (payloads more : List ℕ) (reports : ℕ) (h : Heap)
    : Type 0 where
  pub not_null : v ≢ 0
  pub has_reports : reports ≢ 0
  pub structure : h v ≡ some (five ++ length payloads ∷ reports ∷ [])
  pub array : h reports ≡ some (payloads ++ more)
  pub blocks : AreBlocks (five ++ (payloads ++ reports ∷ v ∷ [])) h

-- A vertex with an array of reports that has an entry for each child: no free is wrong, and exactly
-- the five blocks that it points to, the payloads of the children, the array and the structure are
-- freed. The host names of the children, which only the array `children_hosts` points to, are not
-- among them.
pub free_tbon_vertex_lem :
    (v nodes local_host ids hosts indexes reports : ℕ) (payloads more : List ℕ) (h : Heap)
    → IsVertexAt v (nodes ∷ local_host ∷ ids ∷ hosts ∷ indexes ∷ []) payloads more reports h
    → (h' : Heap) × (free_tbon_vertex v h ≡ done h')
      × OnlyFreed (nodes ∷ local_host ∷ ids ∷ hosts ∷ indexes ∷ (payloads ++ reports ∷ v ∷ [])) h h'
unfolding free_tbon_vertex without
free_tbon_vertex_lem v nodes local_host ids hosts indexes reports payloads more h w =
    let five = nodes ∷ local_host ∷ ids ∷ hosts ∷ indexes ∷ [] in
    let ends = reports ∷ v ∷ [] in
    let words = five ++ length payloads ∷ reports ∷ [] in
    let (freed, structure, blocks) =
      free_fields_lem v (0 ∷ 1 ∷ 2 ∷ 3 ∷ 4 ∷ []) five (payloads ++ ends) words h w.structure
        (refl, (refl, (refl, (refl, (refl, tt)))))
        (AreBlocks-apart five (payloads ++ ends) v h (λ P all. (All-right P payloads ends all).1.0)
          w.blocks)
        w.blocks in
    let h₁ = without five h in
    let array : h₁ reports ≡ some (payloads ++ more) =
      (without-OnlyFreed five h).kept reports (
        AreBlocks-apart five (payloads ++ ends) reports h
          (λ P all. (All-right P payloads ends all).0) w.blocks)
      ∙ w.array in
    let (looped, left) =
      free_payloads_lem payloads [] more words v reports h₁ structure refl array blocks in
    let last = AreBlocks-release reports (v ∷ []) (without payloads h₁) left.1 left.2 in
    let block : (v == 0) ≡ false = ground (arith, w.not_null) in
    let given : (reports == 0) ≡ false = ground (arith, w.has_reports) in
    (
      without (five ++ (payloads ++ ends)) h,
      rw
          (
            block,
            freed,
            load_lem v 5 (length payloads) words h₁ structure refl,
            load_lem v 6 reports words h₁ structure refl,
            given,
            looped,
            free_lem reports (without payloads h₁) left.0,
            free_lem v (release reports (without payloads h₁)) last.0,
          )
          (ap done
            (sym (without-append five (payloads ++ ends) h ∙ without-append payloads ends h₁))),
      without-OnlyFreed (five ++ (payloads ++ ends)) h,
    )
