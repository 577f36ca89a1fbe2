-- ===== src/Protocol/Free/Applications.antt =====
-- The loop that frees the applications of a process manager.
use libdynpm.Base.{
  ℕ, ◌+◌, ◌≡◌, ◌≢◌, ◌∙◌, refl, ap, sym, false, [], ◌∷◌, ◌++◌, List, All, some, get_elem?,
  get_elem?-append, ◌==◌, inl, inr, ◌⊎◌, length, append_assoc, length-append, arith,
}
use libdynpm.Text.Outcome.{done}
use libdynpm.Memory.{Heap, load}
use libdynpm.Memory.Blocks.{
  release, without, Differs, AreBlocks, release-other, release-null, AreBlocks-release, All-right,
}
use libdynpm.Memory.Freeing.{load_lem, free_struct_lem}
use libdynpm.Protocol.Free.{free_application, free_applications}

-- An application: its address, and the pointer `nodes`; both are 0 for an entry that is `NULL`.
pub record Application : Type 0 where
  pub address : ℕ
  pub nodes : ℕ

abbrev pub addresses : List Application → List ℕ
addresses [] = []
addresses (x ∷ apps) = x.address ∷ addresses apps

-- The blocks in the order in which they are freed
abbrev pub application_blocks : List Application → List ℕ
application_blocks [] = []
application_blocks (x ∷ apps) = x.nodes ∷ x.address ∷ application_blocks apps

abbrev pub IsApplication : Heap → Application → Type 0
IsApplication h x =
    ((x.address ≢ 0) × (h x.address ≡ some (x.nodes ∷ []))) ⊎ ((x.address ≡ 0) × (x.nodes ≡ 0))

free_application_lem :
    (x : Application) (ps : List ℕ) (h : Heap)
    → IsApplication h x
    → AreBlocks (x.nodes ∷ x.address ∷ ps) h
    → free_application x.address h ≡ done (release x.address (release x.nodes h))
unfolding free_application without
free_application_lem x ps h (inr (null, empty)) blocks =
    rw (null, empty) (ap done (sym (release-null (release 0 h) ∙ release-null h)))
free_application_lem x ps h (inl (ne, e)) (live, apart, (live', apart', blocks)) =
    let block : (x.address == 0) ≡ false = ground arith in
    rw block (
      free_struct_lem x.address (0 ∷ []) (x.nodes ∷ []) (x.nodes ∷ []) h e (refl, tt)
        (live, (apart.0, tt), (live', tt, tt)))

-- Applications that stay where other blocks are freed
pub IsApplication-release :
    (p : ℕ) (apps : List Application) (qs : List ℕ) (h : Heap)
    → All (Differs p) (application_blocks apps ++ qs)
    → All (IsApplication h) apps
    → All (IsApplication (release p h)) apps
IsApplication-release p [] qs h differ all = tt
IsApplication-release p (x ∷ apps) qs h (first, (differs, more)) (inl (ne, e), all) =
    (inl (ne, release-other p x.address h differs ∙ e), IsApplication-release p apps qs h more all)
IsApplication-release p (x ∷ apps) qs h (first, (differs, more)) (inr null, all) =
    (inr null, IsApplication-release p apps qs h more all)

-- The structure whose array holds the addresses, from the element `length pre` on
pub record HoldsApplications (h : Heap) (msg arr : ℕ) (words : List ℕ) (pre : List ℕ)
    (apps : List Application) : Type 0 where
  pub structure : h msg ≡ some words
  pub array : h arr ≡ some (pre ++ addresses apps)
  pub each : All (IsApplication h) apps
  pub blocks : AreBlocks (application_blocks apps ++ arr ∷ msg ∷ []) h

-- One pass
pass_lem :
    (h : Heap) (msg arr : ℕ) (words pre : List ℕ) (x : Application) (apps : List Application)
    → HoldsApplications h msg arr words pre (x ∷ apps)
    → HoldsApplications
        (release x.address (release x.nodes h))
        msg
        arr
        words
        (pre ++ x.address ∷ [])
        apps
pass_lem h msg arr words pre x apps v =
    let (live, apart, (live', apart', blocks)) = v.blocks in
    let tail = All-right (Differs x.nodes) (application_blocks apps) (arr ∷ msg ∷ []) apart.1 in
    let tail' = All-right (Differs x.address) (application_blocks apps) (arr ∷ msg ∷ []) apart' in
    record {
      structure =
          release-other x.address msg (release x.nodes h) tail'.1.0
          ∙ release-other x.nodes msg h tail.1.0
          ∙ v.structure;
      array =
          release-other x.address arr (release x.nodes h) tail'.0
          ∙ release-other x.nodes arr h tail.0
          ∙ v.array
          ∙ ap some (sym (append_assoc pre (x.address ∷ []) (addresses apps)));
      each =
          IsApplication-release x.address apps (arr ∷ msg ∷ []) (release x.nodes h) apart'
            (IsApplication-release x.nodes apps (arr ∷ msg ∷ []) h apart.1 v.each.1);
      blocks =
          AreBlocks-release x.address (application_blocks apps ++ arr ∷ msg ∷ [])
            (release x.nodes h) apart'
            (AreBlocks-release x.nodes (application_blocks apps ++ arr ∷ msg ∷ []) h apart.1
              blocks);
    }

-- The loop frees the blocks of the applications, and leaves the structure and the array.
pub free_applications_lem :
    (apps : List Application) (pre words : List ℕ) (h : Heap) (msg arr : ℕ)
    → get_elem? words 2 ≡ some arr
    → HoldsApplications h msg arr words pre apps
    → (free_applications (length apps) (length pre) msg h
        ≡ done (without (application_blocks apps) h))
      × (without (application_blocks apps) h msg ≡ some words)
      × AreBlocks (arr ∷ msg ∷ []) (without (application_blocks apps) h)
unfolding free_applications without
free_applications_lem [] pre words h msg arr e v = (refl, v.structure, v.blocks)
free_applications_lem (x ∷ apps) pre words h msg arr e v =
    let first : load arr (length pre) h ≡ done x.address =
      load_lem arr (length pre) x.address (pre ++ x.address ∷ addresses apps) h v.array
        (get_elem?-append pre (addresses apps) x.address) in
    let after : length (pre ++ x.address ∷ []) ≡ length pre + 1 =
      omega (arith, length-append pre (x.address ∷ [])) in
    let (rest, structure, blocks) =
      free_applications_lem apps (pre ++ x.address ∷ []) words
        (release x.address (release x.nodes h)) msg arr e (pass_lem h msg arr words pre x apps v) in
    (
      rw
          (
            load_lem msg 2 arr words h v.structure e,
            first,
            free_application_lem x (application_blocks apps ++ arr ∷ msg ∷ []) h v.each.0 v.blocks,
          )
          (ap (λ k. free_applications (length apps) k msg (release x.address (release x.nodes h)))
              (sym after)
            ∙ rest),
      structure,
      blocks,
    )
