-- ===== src/Memory/Blocks.antt =====
-- Freeing blocks one after the other.
use libdynpm.Base.{
  ℕ, ◌≡◌, ◌≢◌, ◌∙◌, refl, true, false, [], ◌∷◌, ◌++◌, List, All, none, some, ◌==◌, Bool-cases, inl,
  inr, if◌then◌else◌, arith,
}
use libdynpm.Memory.{Heap, erase}

-- The heap without the block at `p`, if `p` is not `NULL`
unfoldable pub release : ℕ → Heap → Heap
release p h = if p == 0 then h else erase p h

-- The heap without these blocks
unfoldable pub without : List ℕ → Heap → Heap
without [] h = h
without (p ∷ ps) h = without ps (release p h)

abbrev pub IsFreeable : ℕ → Heap → Type 0
IsFreeable p h = p ≢ 0 → (words : List ℕ) × (h p ≡ some words)

abbrev pub Differs : ℕ → ℕ → Type 0
Differs p q = p ≢ 0 → q ≢ p

-- Each is `NULL` or a live block, and no block is there twice.
abbrev pub AreBlocks : List ℕ → Heap → Type 0
AreBlocks [] h = Unit
AreBlocks (p ∷ ps) h = IsFreeable p h × All (Differs p) ps × AreBlocks ps h

pub release-other : (p q : ℕ) (h : Heap) → Differs p q → release p h q ≡ h q
unfolding release erase
release-other p q h differs = elim (Bool-cases (p == 0)) [
  | inl null ↦ rw null
  | inr block ↦ let other : (q == p) ≡ false = ground (arith, differs) in rw (block, other)
]

pub release-null : (h : Heap) → release 0 h ≡ h
unfolding release
release-null h = refl

pub AreBlocks-release :
    (p : ℕ) (ps : List ℕ) (h : Heap)
    → All (Differs p) ps
    → AreBlocks ps h
    → AreBlocks ps (release p h)
AreBlocks-release p [] h differ blocks = tt
AreBlocks-release p (q ∷ ps) h differ (live, apart, blocks) = (
  (λ ne. let (words, e) = live ne in (words, release-other p q h differ.0 ∙ e)),
  apart,
  AreBlocks-release p ps h differ.1 blocks,
)

pub All-right : (P : ℕ → Type 0) (ps qs : List ℕ) → All P (ps ++ qs) → All P qs
All-right P [] qs all = all
All-right P (p ∷ ps) qs all = All-right P ps qs all.1

All-left : (P : ℕ → Type 0) (ps qs : List ℕ) → All P (ps ++ qs) → All P ps
All-left P [] qs all = tt
All-left P (p ∷ ps) qs all = (all.0, All-left P ps qs all.1)

pub without-append : (ps qs : List ℕ) (h : Heap) → without (ps ++ qs) h ≡ without qs (without ps h)
unfolding without
without-append [] qs h = refl
without-append (p ∷ ps) qs h = without-append ps qs (release p h)

pub AreBlocks-without :
    (ps qs : List ℕ) (h : Heap) → AreBlocks (ps ++ qs) h → AreBlocks qs (without ps h)
unfolding without
AreBlocks-without [] qs h blocks = blocks
AreBlocks-without (p ∷ ps) qs h (live, apart, blocks) =
    AreBlocks-without ps qs (release p h) (AreBlocks-release p (ps ++ qs) h apart blocks)

-- The prefix of a list of blocks
pub AreBlocks-left : (ps qs : List ℕ) (h : Heap) → AreBlocks (ps ++ qs) h → AreBlocks ps h
AreBlocks-left [] qs h blocks = tt
AreBlocks-left (p ∷ ps) qs h (live, apart, blocks) =
    (live, All-left (Differs p) ps qs apart, AreBlocks-left ps qs h blocks)

pub AreBlocks-right : (ps qs : List ℕ) (h : Heap) → AreBlocks (ps ++ qs) h → AreBlocks qs h
AreBlocks-right [] qs h blocks = blocks
AreBlocks-right (p ∷ ps) qs h (live, apart, blocks) = AreBlocks-right ps qs h blocks

-- The blocks are not live in `h'`, and all else is as in `h`.
pub record OnlyFreed (ps : List ℕ) (h h' : Heap) : Type 0 where
  pub gone : All (λ p. p ≢ 0 → h' p ≡ none) ps
  pub kept : (b : ℕ) → All (λ p. Differs p b) ps → h' b ≡ h b

release-gone : (p b : ℕ) (h : Heap) → h b ≡ none → release p h b ≡ none
unfolding release erase
release-gone p b h e = elim (Bool-cases (p == 0)) [
  | inl null ↦ rw null e
  | inr block ↦ elim (Bool-cases (b == p)) [
    | inl same ↦ rw (block, same)
    | inr other ↦ rw (block, other) e
  ]
]

release_self : (p : ℕ) (h : Heap) → p ≢ 0 → release p h p ≡ none
unfolding release erase
release_self p h ne =
    let block : (p == 0) ≡ false = ground arith in
    let same : (p == p) ≡ true = ground arith in rw (block, same)

without-gone : (ps : List ℕ) (b : ℕ) (h : Heap) → h b ≡ none → without ps h b ≡ none
unfolding without
without-gone [] b h e = e
without-gone (p ∷ ps) b h e = without-gone ps b (release p h) (release-gone p b h e)

pub without-OnlyFreed : (ps : List ℕ) (h : Heap) → OnlyFreed ps h (without ps h)
unfolding without
without-OnlyFreed [] h = record { gone = tt; kept = λ b differ. refl }
without-OnlyFreed (p ∷ ps) h =
    let rest = without-OnlyFreed ps (release p h) in
    record {
      gone = ((λ ne. without-gone ps p (release p h) (release_self p h ne)), rest.gone);
      kept = λ b differ. rest.kept b differ.1 ∙ release-other p b h differ.0;
    }

-- A block of the tail differs from those before the tail.
pub AreBlocks-apart :
    (qs tail : List ℕ) (b : ℕ) (h : Heap)
    → ((P : ℕ → Type 0) → All P tail → P b)
    → AreBlocks (qs ++ tail) h
    → All (λ p. Differs p b) qs
AreBlocks-apart [] tail b h pick blocks = tt
AreBlocks-apart (q ∷ qs) tail b h pick (live, apart, blocks) = (
  pick (Differs q) (All-right (Differs q) qs tail apart),
  AreBlocks-apart qs tail b h pick blocks,
)
