-- ===== src/Memory/Freeing.antt =====
-- What the operations on memory free, where the blocks are live.
use libdynpm.Base.{
  ℕ, ◌≡◌, ◌∙◌, refl, [], ◌∷◌, ◌++◌, List, All, some, get_elem?, ◌==◌, Bool-cases, inl, inr, arith,
}
use libdynpm.Text.Outcome.{Outcome, done, ◌>>=◌}
use libdynpm.Memory.{Heap, load, free, free_bare, free_field, free_fields}
use libdynpm.Memory.Blocks.{
  release, without, IsFreeable, Differs, AreBlocks, release-other, AreBlocks-release, All-right,
}

pub free_lem : (p : ℕ) (h : Heap) → IsFreeable p h → free p h ≡ done (release p h)
unfolding free release
free_lem p h live = elim (Bool-cases (p == 0)) [
  | inl null ↦ rw null
  | inr block ↦ let (words, e) = live (ground arith) in rw (block, e)
]

pub load_lem :
    (a i p : ℕ) (words : List ℕ) (h : Heap)
    → h a ≡ some words
    → get_elem? words i ≡ some p
    → load a i h ≡ done p
unfolding load
load_lem a i p words h e e' = rw (e, e')

pub free_field_lem :
    (a i p : ℕ) (words : List ℕ) (h : Heap)
    → h a ≡ some words
    → get_elem? words i ≡ some p
    → IsFreeable p h
    → free_field a i h ≡ done (release p h)
unfolding free_field release
free_field_lem a i p words h e e' live = elim (Bool-cases (p == 0)) [
  | inl null ↦ rw (load_lem a i p words h e e', null)
  | inr block ↦ rw (load_lem a i p words h e e', block, free_lem p h live) (rw block)
]

-- The fields hold these pointers.
abbrev pub HoldPointers : List ℕ → List ℕ → List ℕ → Type 0
HoldPointers words [] [] = Unit
HoldPointers words (i ∷ fields) (p ∷ ps) =
    (get_elem? words i ≡ some p) × HoldPointers words fields ps
HoldPointers words _ _ = ⊥

-- Several fields of a structure that stays
pub free_fields_lem :
    (a : ℕ) (fields ps tail words : List ℕ) (h : Heap)
    → h a ≡ some words
    → HoldPointers words fields ps
    → All (λ p. Differs p a) ps
    → AreBlocks (ps ++ tail) h
    → (free_fields a fields h ≡ done (without ps h))
      × (without ps h a ≡ some words)
      × AreBlocks tail (without ps h)
unfolding free_fields without
free_fields_lem a [] [] tail words h e holds others blocks = (refl, e, blocks)
free_fields_lem a [] (p ∷ ps) tail words h e holds others blocks = absurd holds
free_fields_lem a (i ∷ fields) [] tail words h e holds others blocks = absurd holds
free_fields_lem a (i ∷ fields) (p ∷ ps) tail words h e (word, holds) (other, others)
      (live, apart, blocks) =
    let (rest, stays, left) =
      free_fields_lem a fields ps tail words (release p h) (release-other p a h other ∙ e) holds
        others (AreBlocks-release p (ps ++ tail) h apart blocks) in
    (rw (free_field_lem a i p words h e word live) rest, stays, left)

-- `free(a->field)` for each field, and then `free(a)`
abbrev pub free_struct : ℕ → List ℕ → Heap → Outcome Heap
free_struct a [] h = free a h
free_struct a (i ∷ fields) h = do h' ← free_field a i h; free_struct a fields h'

pub free_struct_lem :
    (a : ℕ) (fields ps words : List ℕ) (h : Heap)
    → h a ≡ some words
    → HoldPointers words fields ps
    → AreBlocks (ps ++ a ∷ []) h
    → free_struct a fields h ≡ done (without (ps ++ a ∷ []) h)
unfolding without
free_struct_lem a [] [] words h e holds blocks = free_lem a h blocks.0
free_struct_lem a [] (p ∷ ps) words h e holds blocks = absurd holds
free_struct_lem a (i ∷ fields) [] words h e holds blocks = absurd holds
free_struct_lem a (i ∷ fields) (p ∷ ps) words h e (word, holds) (live, apart, blocks) =
    let other = All-right (Differs p) ps (a ∷ []) apart in
    rw (free_field_lem a i p words h e word live) (
      free_struct_lem a fields ps words (release p h) (release-other p a h other.0 ∙ e) holds
        (AreBlocks-release p (ps ++ a ∷ []) h apart blocks))

pub free_bare_lem :
    (a i p : ℕ) (words : List ℕ) (h : Heap)
    → h a ≡ some words
    → get_elem? words i ≡ some p
    → IsFreeable p h
    → free_bare a i h ≡ done (release p h)
unfolding free_bare
free_bare_lem a i p words h e e' live = rw (load_lem a i p words h e e') (free_lem p h live)
