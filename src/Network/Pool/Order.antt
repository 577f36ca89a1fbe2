-- ===== src/Network/Pool/Order.antt =====
-- Sequences of operations on the work queue (src/network/queue.c), each with the mutex held as a whole.
use libdynpm.Base.{
  ℕ, zero, suc, ◌<◌, ◌≡◌, ◌≢◌, refl, ◌∙◌, ap, sym, true, false, [], ◌∷◌, ◌++◌, List, none, some,
  All, ◌==◌, inl, inr, ◌⊎◌, append_assoc, arith, Bool-cases, ltb,
}
use libdynpm.Network.Pool.{
  Pool, indexes, work_queue_init, add_unit, work_queue_add, Round, leaves, sleeps, takes,
  queue_round, contains, work_queue_finalize,
}

-- One operation: a unit is added, a worker has the mutex, or the queue is finalized.
pub data Event (A : Type 0) : Type 0 where
  add : A → Event A
  worker : ℕ → Event A
  finalize : Event A

-- The pool with the units added and those taken by workers, in order.
pub record History (A : Type 0) : Type 0 where
  pub pool : Pool A
  pub added : List A
  pub taken : List A

abbrev pub note_round : {A : Type 0} → Pool A × Round A → History A → History A
note_round (p, takes u) h = record h { pool = p; taken = h.taken ++ u ∷ [] }
note_round (p, _) h = record h { pool = p }

unfoldable pub act : {A : Type 0} → Event A → History A → History A
act (add u) h = record h { pool = work_queue_add u h.pool; added = h.added ++ u ∷ [] }
act (worker i) h = note_round (queue_round i h.pool) h
act finalize h = record h { pool = work_queue_finalize h.pool }

-- The events, the head of the list first.
unfoldable pub run : {A : Type 0} → List (Event A) → History A → History A
run [] h = h
run (e ∷ events) h = run events (act e h)

-- The history at the start
abbrev pub begin : {A : Type 0} → Pool A → History A
begin p = record { pool = p; added = []; taken = [] }

-- The event names a worker below `n`, if it names one.
abbrev pub IsIn : {A : Type 0} → ℕ → Event A → Type 0
IsIn n (add u) = Unit
IsIn n (worker i) = i < n
IsIn n finalize = Unit

-- All workers are told to end.
abbrev pub IsOver : {A : Type 0} → ℕ → History A → Type 0
IsOver n h = (i : ℕ) → i < n → h.pool.terminate i ≡ true

-- Before the end of the pool: what is taken and what waits is what was added.
abbrev pub IsOpen : {A : Type 0} → ℕ → History A → Type 0
IsOpen n h = (h.pool.thread_data ≡ indexes n) × (h.taken ++ h.pool.work_units ≡ h.added)

pub add_unit-append : {A : Type 0} (u : A) (units : List A) → add_unit u units ≡ units ++ u ∷ []
unfolding add_unit
add_unit-append u [] = refl
add_unit-append u (v ∷ units) = ap (λ t. v ∷ t) (add_unit-append u units)

contains-indexes : (n i : ℕ) → i < n → contains i (indexes n) ≡ true
unfolding contains indexes
contains-indexes zero i h = absurd (omega arith)
contains-indexes (suc n) i h = elim (Bool-cases (n == i)) [
  | inl same ↦ rw same
  | inr other ↦ rw (other, contains-indexes n i (ground arith))
]

pub units_cases :
    {A : Type 0} (units : List A) → (units ≡ []) ⊎ ((u : A) × (rest : List A) × (units ≡ u ∷ rest))
units_cases [] = inl refl
units_cases (u ∷ rest) = inr (u, rest, refl)

-- What a worker does, as an equation for each case.
abbrev pub RoundOf : {A : Type 0} → ℕ → Pool A → Pool A × Round A → Type 0
RoundOf {A = A} i p r =
    (r ≡ (p, leaves))
    ⊎ (r ≡ (p, sleeps))
    ⊎ ((u : A) × (units : List A) × (p.work_units ≡ u ∷ units)
        × (p.terminate i ≡ false)
        × (r ≡ (record p { work_units = units }, takes u)))

pub queue_round-cases : {A : Type 0} (i : ℕ) (p : Pool A) → RoundOf i p (queue_round i p)
unfolding queue_round
queue_round-cases i p = elim (Bool-cases (p.terminate i)) [
  | inl told ↦ inl (rw told)
  | inr free ↦ elim (units_cases p.work_units) [
    | inl none_left ↦ inr (inl (simp (free, none_left)))
    | inr (u, rest, some_left) ↦ inr (inr (u, rest, some_left, free, rw (free, some_left)))
  ]
]

init_lem :
    {A : Type 0} (n : ℕ) (p : Pool A)
    → work_queue_init n ≡ some p
    → record { work_units = []; thread_data = indexes n; terminate = λ i. false } ≡ p
unfolding work_queue_init
init_lem {A = A} n p made = elim (Bool-cases (ltb n 1)) [
  | inl few ↦ let failed : work_queue_init {A = A} n ≡ none = rw few in cc failed
  | inr enough ↦
      let known : work_queue_init {A = A} n
          ≡ some (record { work_units = []; thread_data = indexes n; terminate = λ i. false }) =
        rw enough in
      cc known
]

init-IsOpen : {A : Type 0} (n : ℕ) (p : Pool A) → work_queue_init n ≡ some p → IsOpen n (begin p)
init-IsOpen {A = A} n p made =
    let same = init_lem n p made in
    (ap (λ (q : Pool A). q.thread_data) (sym same), ap (λ (q : Pool A). q.work_units) (sym same))

pub init-runs :
    {A : Type 0} (n : ℕ) (p : Pool A)
    → work_queue_init n ≡ some p
    → (p.work_units ≡ []) × ((i : ℕ) → p.terminate i ≡ false)
init-runs {A = A} n p made =
    let same = init_lem n p made in
    (
      ap (λ (q : Pool A). q.work_units) (sym same),
      (λ i. ap (λ (q : Pool A). q.terminate i) (sym same)),
    )

act-IsOpen :
    {A : Type 0} (n : ℕ) (h : History A) (e : Event A)
    → e ≢ finalize
    → IsOpen n h
    → IsOpen n (act e h)
unfolding act work_queue_add
act-IsOpen n h (add u) keeps (listed, all) = (
  listed,
  ap (λ t. h.taken ++ t) (add_unit-append u h.pool.work_units)
      ∙ sym (append_assoc h.taken h.pool.work_units (u ∷ []))
      ∙ ap (λ t. t ++ u ∷ []) all,
)
act-IsOpen n h (worker i) keeps (listed, all) = elim (queue_round-cases i h.pool) [
  | inl told ↦ rw told (listed, all)
  | inr (inl idle) ↦ rw idle (listed, all)
  | inr (inr (u, rest, some_left, free, taken)) ↦
      rw taken
        (listed, append_assoc h.taken (u ∷ []) rest ∙ ap (λ t. h.taken ++ t) (sym some_left) ∙ all)
]
act-IsOpen n h finalize keeps state = absurd (keeps refl)

run-IsOpen :
    {A : Type 0} (n : ℕ) (events : List (Event A)) (h : History A)
    → All (λ e. e ≢ finalize) events
    → IsOpen n h
    → IsOpen n (run events h)
unfolding run
run-IsOpen n [] h keeps state = state
run-IsOpen n (e ∷ events) h keeps state =
    run-IsOpen n events (act e h) keeps.1 (act-IsOpen n h e keeps.0 state)

-- In a pool that `dynpm_work_queue_init` made, after every sequence of additions and rounds of the
-- workers without a finalization, the units taken and then those that wait are the units added, in
-- order: each is taken at most once, and none is lost.
pub taken_in_order :
    {A : Type 0} (n : ℕ) (p : Pool A) (events : List (Event A))
    → work_queue_init n ≡ some p
    → All (λ e. e ≢ finalize) events
    → (run events (begin p)).taken ++ (run events (begin p)).pool.work_units
      ≡ (run events (begin p)).added
taken_in_order n p events made keeps =
    (run-IsOpen n events (begin p) keeps (init-IsOpen n p made)).1

act-IsOver :
    {A : Type 0} (n : ℕ) (h : History A) (e : Event A)
    → IsIn n e
    → IsOver n h
    → IsOver n (act e h) × ((act e h).taken ≡ h.taken)
unfolding act work_queue_add work_queue_finalize contains
act-IsOver n h (add u) lt over = (over, refl)
act-IsOver n h (worker i) lt over =
    let idle : queue_round i h.pool ≡ (h.pool, leaves) = unfold queue_round in rw (over i lt) in
    rw idle (over, refl)
act-IsOver n h finalize lt over = ((λ i small. ground (arith, over i small)), refl)

run-IsOver :
    {A : Type 0} (n : ℕ) (events : List (Event A)) (h : History A)
    → All (IsIn n) events
    → IsOver n h
    → (run events h).taken ≡ h.taken
unfolding run
run-IsOver n [] h valid over = refl
run-IsOver n (e ∷ events) h valid over =
    let (still, same) = act-IsOver n h e valid.0 over in
    run-IsOver n events (act e h) valid.1 still ∙ same

finalize-IsOver : {A : Type 0} (n : ℕ) (h : History A) → IsOpen n h → IsOver n (act finalize h)
unfolding act work_queue_finalize
finalize-IsOver n h (listed, all) i lt =
    let known : contains i h.pool.thread_data ≡ true = rw listed (contains-indexes n i lt) in
    rw known

-- After the first finalization of a pool that `dynpm_work_queue_init` made with `n` workers, these
-- never take a unit again, whatever is added and whichever of them has the mutex.
pub none_taken_after_finalize :
    {A : Type 0} (n : ℕ) (p : Pool A) (events later : List (Event A))
    → work_queue_init n ≡ some p
    → All (λ e. e ≢ finalize) events
    → All (IsIn n) later
    → (run later (act finalize (run events (begin p)))).taken ≡ (run events (begin p)).taken
none_taken_after_finalize n p events later made keeps valid =
    run-IsOver n later (act finalize (run events (begin p))) valid (
      finalize-IsOver n (run events (begin p))
        (run-IsOpen n events (begin p) keeps (init-IsOpen n p made)))
    ∙ unfold act in refl
