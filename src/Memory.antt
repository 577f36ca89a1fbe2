-- ===== src/Memory.antt =====
-- The memory that `malloc` and `free` manage: which blocks are live, and the words of a block that hold
-- pointers and counts, in the order of its fields. The address 0 is `NULL`.
use libdynpm.Base.{
  [], ◌∷◌, ℕ, zero, suc, ◌≡◌, List, Option, none, some, get_elem?, ◌==◌, if◌then◌else◌,
}
use libdynpm.Text.Outcome.{Outcome, done, fault, or_fault, ◌>>=◌}
pub mod Blocks
pub mod Freeing
pub mod Allocating

-- The words of the block at an address; `none` where no block is live.
abbrev pub Heap : Type 0
Heap = ℕ → Option (List ℕ)

-- The word `i` of the block at `a`, as in `a->field`
unfoldable pub load : ℕ → ℕ → Heap → Outcome ℕ
load a i h = do words ← or_fault (h a); or_fault (get_elem? words i)

-- The block at `a` is not live any more.
unfoldable pub erase : ℕ → Heap → Heap
erase a h = λ b. if b == a then none else h b

-- `free(a)`: nothing where `a` is `NULL`, and wrong where no block is live.
unfoldable pub free : ℕ → Heap → Outcome Heap
free a h = if a == 0 then done h else elim (h a) [ none ↦ fault | some words ↦ done (erase a h) ]

-- `free(a->field)`
unfoldable pub free_bare : ℕ → ℕ → Heap → Outcome Heap
free_bare a i h = do p ← load a i h; free p h

-- `if(a->field) free(a->field)`
unfoldable pub free_field : ℕ → ℕ → Heap → Outcome Heap
free_field a i h = do p ← load a i h; let freed = free p h; if p == 0 then done h else freed

-- The same for several fields, in order
unfoldable pub free_fields : ℕ → List ℕ → Heap → Outcome Heap
free_fields a [] h = done h
free_fields a (i ∷ fields) h = do h' ← free_field a i h; free_fields a fields h'
