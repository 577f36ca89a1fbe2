-- ===== src/Shm/Delivery.antt =====
-- What the processes receive, for all sequences of operations of src/shm/shm.c.
use libdynpm.Base.{ℕ, ◌<◌, ◌≡◌, ◌⊎◌, inl, inr, refl, List, [], ◌∷◌, ◌++◌, All, arith}
use libdynpm.Text.Chars.{Bytes}
use libdynpm.Shm.World.{World, ok, start, process_read}
use libdynpm.Shm.Trace.{Action, Trace, act, run, current, Inv, write, read, set_mode, poll}
use libdynpm.Shm.Steps.{manager_write-Written, process_read-ReadBy}
use libdynpm.Shm.Invariant.{write-Inv}
use libdynpm.Shm.Reading.{mode-Inv, read-Inv, poll-Inv}

-- The action names processes below `n` only.
abbrev pub IsIn : ℕ → Action → Type 0
IsIn n (write p) = Unit
IsIn n (read i) = i < n
IsIn n (set_mode i mode) = i < n
IsIn n poll = Unit

act-Inv : {n : ℕ} {t : Trace} (a : Action) → IsIn n a → Inv n t → Inv n (act a t)
unfolding act
act-Inv {t = t} (write p) h inv = write-Inv p inv (manager_write-Written p t.world)
act-Inv {t = t} (read i) h inv = (read-Inv i inv h (process_read-ReadBy i t.world)).1
act-Inv (set_mode i mode) h inv = mode-Inv i mode inv
act-Inv poll h inv = poll-Inv inv

run-Inv :
    {n : ℕ} (actions : List Action) (t : Trace)
    → All (IsIn n) actions
    → Inv n t
    → Inv n (run actions t)
unfolding run
run-Inv [] t h inv = inv
run-Inv (a ∷ actions) t h inv = run-Inv actions (act a t) h.1 (act-Inv a h.0 inv)

-- The trace at the start, over a world in which the manager and its processes have just attached.
abbrev pub begin : World → Trace
begin w = record { world = w; sent = []; received = λ i. [] }

start-Inv :
    (job application manager_pages process_pages : ℕ) (pids : ℕ → ℕ) (n pid : ℕ) (payload : Bytes)
    → Inv n (begin (start job application manager_pages process_pages pids n pid payload))
unfolding start
start-Inv job application manager_pages process_pages pids n pid payload = record {
  count = refl;
  word = omega arith;
  shared = refl;
  same = λ i. refl;
  served = λ i lt. inl (refl, refl);
}

module _ (job application manager_pages process_pages : ℕ) (pids : ℕ → ℕ) (n pid : ℕ)
    (payload : Bytes) (actions : List Action) (valid : All (IsIn n) actions) (i : ℕ)
    (lt : i < n) where
  abbrev last : Trace
  last = run actions (begin (start job application manager_pages process_pages pids n pid payload))

  -- Whatever the manager and `n` processes do after the start, in whatever order of whole operations,
  -- the payloads that process `i` has read are all those written, in order and each once, or all but
  -- the last, which is then the one in shared memory.
  pub received_in_order :
      (last.received i ≡ last.sent) ⊎ (last.received i ++ current last.world ∷ [] ≡ last.sent)
  received_in_order =
      elim ((run-Inv actions _ valid
          (start-Inv job application manager_pages process_pages pids n pid payload)).served
        i lt) [ inl all ↦ inl all.1 | inr behind ↦ inr behind.2 ]

  -- Whatever the manager and `n` processes do after the start, in whatever order of whole operations,
  -- a read by process `i` then succeeds: no process ever misses a payload.
  pub read_never_misses : (process_read i last.world).2 ≡ ok
  read_never_misses =
      (read-Inv i
        (run-Inv actions _ valid
          (start-Inv job application manager_pages process_pages pids n pid payload))
        lt (process_read-ReadBy i last.world)).0
