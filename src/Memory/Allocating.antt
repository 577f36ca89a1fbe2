-- ===== src/Memory/Allocating.antt =====
-- Blocks that `malloc` returns, and what freeing them all leaves.
use libdynpm.Base.{
  ℕ, ◌≡◌, ◌≢◌, ◌∙◌, ◌⊎◌, inl, inr, refl, sym, true, false, [], ◌∷◌, ◌++◌, List, All, some, none,
  ◌==◌, ==_iff, Bool-cases, if◌then◌else◌, arith,
}
use libdynpm.Memory.{Heap}
use libdynpm.Memory.Blocks.{release, Differs, AreBlocks, release-other}

-- `malloc`, which returns `a`: a block with these words
abbrev pub malloc : ℕ → List ℕ → Heap → Heap
malloc a ws h = λ b. if b == a then some ws else h b

-- The texts of a message, one after the other
abbrev pub malloc_all : List ℕ → Heap → Heap
malloc_all [] h = h
malloc_all (p ∷ ps) h = malloc_all ps (malloc p [] h)

-- The addresses are of new blocks: not `NULL`, not live, and each different from the next ones.
abbrev pub AreNew : List ℕ → Heap → Type 0
AreNew [] h = Unit
AreNew (p ∷ ps) h = (p ≢ 0) × (h p ≡ none) × All (λ q. q ≢ p) ps × AreNew ps h

pub malloc_other : (a b : ℕ) (ws : List ℕ) (h : Heap) → b ≢ a → malloc a ws h b ≡ h b
malloc_other a b ws h ne = let other : (b == a) ≡ false = ground arith in rw other refl

pub malloc_self : (a : ℕ) (ws : List ℕ) (h : Heap) → malloc a ws h a ≡ some ws
malloc_self a ws h = let same : (a == a) ≡ true = (==_iff a a).1 refl in rw same refl

pub malloc_all-other :
    (ps : List ℕ) (b : ℕ) (h : Heap) → All (λ p. b ≢ p) ps → malloc_all ps h b ≡ h b
malloc_all-other [] b h others = refl
malloc_all-other (p ∷ ps) b h (other, others) =
    malloc_all-other ps b (malloc p [] h) others ∙ malloc_other p b [] h other

-- Two lists of addresses that differ
pub differ_from : (p : ℕ) (ps : List ℕ) → All (λ q. q ≢ p) ps → All (λ q. p ≢ q) ps
differ_from p [] others = tt
differ_from p (q ∷ ps) (other, others) = ((λ e. other (sym e)), differ_from p ps others)

-- An address is in a list, or differs from all in it.
pub in_or_apart : (b : ℕ) (ps : List ℕ) → All (λ p. b ≢ p) ps ⊎ ((P : ℕ → Type 0) → All P ps → P b)
in_or_apart b [] = inl tt
in_or_apart b (p ∷ ps) = elim (Bool-cases (b == p)) [
  | inl same ↦ let e : b ≡ p = (==_iff b p).0 same in inr (λ P all. rw e all.0)
  | inr other ↦ elim (in_or_apart b ps) [
    | inl apart ↦ inl ((λ e. let clash : (b == p) ≡ true = (==_iff b p).1 e in cc), apart)
    | inr is_in ↦ inr (λ P all. is_in P all.1)
  ]
]

pub AreNew-malloc :
    (a : ℕ) (ws ps : List ℕ) (h : Heap)
    → All (λ p. p ≢ a) ps
    → AreNew ps h
    → AreNew ps (malloc a ws h)
AreNew-malloc a ws [] h others new = tt
AreNew-malloc a ws (p ∷ ps) h (other, others) (ne, absent, apart, new) =
    (ne, malloc_other a p ws h other ∙ absent, apart, AreNew-malloc a ws ps h others new)

-- The new blocks are live.
pub malloc_all-All :
    (ps : List ℕ) (h : Heap) → AreNew ps h → All (λ p. malloc_all ps h p ≡ some []) ps
malloc_all-All [] h new = tt
malloc_all-All (p ∷ ps) h (ne, absent, apart, new) = (
  malloc_all-other ps p (malloc p [] h) (differ_from p ps apart) ∙ malloc_self p [] h,
  malloc_all-All ps (malloc p [] h) (AreNew-malloc p [] ps h apart new),
)

pub release-All :
    (a : ℕ) (ps : List ℕ) (h : Heap)
    → All (λ p. p ≢ a) ps
    → All (λ p. h p ≡ some []) ps
    → All (λ p. release a h p ≡ some []) ps
release-All a [] h others live = tt
release-All a (p ∷ ps) h (other, others) (e, live) =
    (release-other a p h (λ ne. other) ∙ e, release-All a ps h others live)

Differs-append :
    (p a : ℕ) (ps : List ℕ) → All (λ q. q ≢ p) ps → a ≢ p → All (Differs p) (ps ++ a ∷ [])
Differs-append p a [] others other = ((λ ne. other), tt)
Differs-append p a (q ∷ ps) (first, others) other =
    ((λ ne. first), Differs-append p a ps others other)

pub All-AreBlocks :
    (ps ws : List ℕ) (a : ℕ) (g h : Heap)
    → All (λ p. g p ≡ some []) ps
    → g a ≡ some ws
    → AreNew ps h
    → All (λ p. p ≢ a) ps
    → AreBlocks (ps ++ a ∷ []) g
All-AreBlocks [] ws a g h live e new others = ((λ ne. (ws, e)), tt, tt)
All-AreBlocks (p ∷ ps) ws a g h (is, live) e (ne, absent, apart, new) (other, others) = (
  (λ ne'. ([], is)),
  Differs-append p a ps apart (λ same. other (sym same)),
  All-AreBlocks ps ws a g h live e new others,
)

-- The new addresses, with one more at the end
pub AreNew-append :
    (ps : List ℕ) (a : ℕ) (h : Heap)
    → AreNew ps h
    → a ≢ 0
    → h a ≡ none
    → All (λ p. (p ≢ 0) × (h p ≡ none)) (ps ++ a ∷ [])
AreNew-append [] a h new ne absent = ((ne, absent), tt)
AreNew-append (p ∷ ps) a h (ne', absent', apart, new) ne absent =
    ((ne', absent'), AreNew-append ps a h new ne absent)

pub gone_All :
    (ps : List ℕ) (h h' : Heap)
    → All (λ p. p ≢ 0 → h' p ≡ none) ps
    → All (λ p. (p ≢ 0) × (h p ≡ none)) ps
    → All (λ p. h' p ≡ h p) ps
gone_All [] h h' gone new = tt
gone_All (p ∷ ps) h h' (first, gone) ((ne, absent), new) =
    (first ne ∙ sym absent, gone_All ps h h' gone new)

pub Differs-All : (b : ℕ) (ps : List ℕ) → All (λ p. b ≢ p) ps → All (λ p. Differs p b) ps
Differs-All b [] others = tt
Differs-All b (p ∷ ps) (other, others) = ((λ ne. other), Differs-All b ps others)

pub left_and_last :
    (b a : ℕ) (ps : List ℕ) → All (λ p. b ≢ p) (ps ++ a ∷ []) → All (λ p. b ≢ p) ps × (b ≢ a)
left_and_last b a [] (other, none_left) = (tt, other)
left_and_last b a (p ∷ ps) (other, others) =
    let (left, last) = left_and_last b a ps others in ((other, left), last)
