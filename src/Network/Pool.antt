-- ===== src/Network/Pool.antt =====
-- src/network/queue.c: the queue of work units and the threads that take them.
use libdynpm.Base.{
  ℕ, zero, suc, ◌<◌, ◌≡◌, true, false, Bool, [], ◌∷◌, ◌++◌, List, Option, none, some, ltb, ◌==◌,
  if◌then◌else◌,
}
pub mod Order

-- `work_queue`, with `A` for the data of a work unit, and the flags `terminate` of the workers by
-- index. The list `thread_data` holds the indexes of the workers.
pub record Pool (A : Type 0) : Type 0 where
  pub work_units : List A
  pub thread_data : List ℕ
  pub terminate : ℕ → Bool

-- The loop of `dynpm_work_queue_init`: each worker is put at the head of the list.
unfoldable pub indexes : ℕ → List ℕ
indexes zero = []
indexes (suc n) = n ∷ indexes n

-- `dynpm_work_queue_init`, where every call of the system succeeds; `none` where it returns -1.
unfoldable pub work_queue_init : {A : Type 0} → ℕ → Option (Pool A)
unfolding indexes
work_queue_init thread_count =
    if ltb thread_count 1
    then none
    else some
        (record { work_units = []; thread_data = indexes thread_count; terminate = λ i. false })

-- The walk of `dynpm_work_queue_add` to the tail of the list. Each call is given a unit of its own:
-- the cell of a unit that is still in the list would be linked to the tail, and its successors
-- lost.
unfoldable pub add_unit : {A : Type 0} → A → List A → List A
add_unit u [] = u ∷ []
add_unit u (v ∷ units) = v ∷ add_unit u units

-- `dynpm_work_queue_add`
unfoldable pub work_queue_add : {A : Type 0} → A → Pool A → Pool A
unfolding add_unit
work_queue_add u p = record p { work_units = add_unit u p.work_units }

-- What a worker does with the mutex held.
pub data Round (A : Type 0) : Type 0 where
  leaves : Round A
  sleeps : Round A
  takes : A → Round A

-- `queue_thread`, from the lock of the mutex to its unlock or to the wait
unfoldable pub queue_round : {A : Type 0} → ℕ → Pool A → Pool A × Round A
queue_round i p = if p.terminate i then (p, leaves) else elim p.work_units [
  | [] ↦ (p, sleeps)
  | u ∷ units ↦ (record p { work_units = units }, takes u)
]

-- Whether the worker is in the list
unfoldable pub contains : ℕ → List ℕ → Bool
contains i [] = false
contains i (j ∷ workers) = let rest = contains i workers in if j == i then true else rest

-- `dynpm_work_queue_finalize`
unfoldable pub work_queue_finalize : {A : Type 0} → Pool A → Pool A
unfolding contains
work_queue_finalize p = record {
  work_units = [];
  thread_data = [];
  terminate = λ i. if contains i p.thread_data then true else p.terminate i;
}
