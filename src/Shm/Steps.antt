-- ===== src/Shm/Steps.antt =====
-- What one write and one read come to (`dynpm_shm_manager_write`, `dynpm_shm_process_read`).
use libdynpm.Base.{
  ℕ, zero, suc, ◌≤◌, ◌<◌, ◌≡◌, ◌≢◌, inl, inr, true, Bool, ◌&&◌, [], some, ltb, ◌==◌, length, take,
  arith, Bool-cases,
}
use native.Mathlib.Decide.{ℕ_discrete}
use libdynpm.Text.Chars.{Bytes}
use libdynpm.Shm.World.{
  u32, next, previous, update, ProcessControl, World, copy_processes, tally, Code, ok,
  all_processes_read_ready, publish, manager_write, take_payload, process_read,
}

-- All of the first `n` pass if as many do.
pub tally-le : (n : ℕ) (test : ℕ → Bool) → tally n test ≤ n
unfolding tally
tally-le zero test = omega arith
tally-le (suc n) test = ground (arith, tally-le n test)

pub tally-all : (n : ℕ) (test : ℕ → Bool) (i : ℕ) → tally n test ≡ n → i < n → test i ≡ true
unfolding tally
tally-all zero test i h lt = absurd (omega arith)
tally-all (suc n) test i h lt = elim (Bool-cases (test n)) [
  | inl passes ↦
      let below : tally n test ≡ n = omega (arith, rw passes at h) in
      elim (ℕ_discrete i n) [ yes e ↦ rw e passes | no ne ↦ tally-all n test i below (omega arith) ]
  | inr fails ↦ absurd (omega (arith, rw fails at h, tally-le n test))
]

pub all_ready :
    (w : World) (i : ℕ)
    → (all_processes_read_ready w).1 ≡ true
    → i < w.manager.process_count
    → (w.shm_process i).read_count ≡ w.manager.write_count
unfolding all_processes_read_ready
all_ready w i h lt = ground (
  arith,
  tally-all w.manager.process_count
      (λ j.
        (copy_processes w.manager.process_count w.shm_process w.copies j).read_count
        == w.manager.write_count)
      i,
)

-- What a write comes to: a refusal, or the payload in shared memory, with every process up to date
-- before it. Both may refresh the manager's copies.
pub data Written (p : Bytes) (w : World) : World × Code → Type 0 where
  refused :
      {r : World × Code} (copies : ℕ → ProcessControl)
      → r.0 ≡ record w { copies = copies }
      → r.1 ≢ ok
      → Written p w r
  published :
      {r : World × Code} (copies : ℕ → ProcessControl)
      → r ≡ (publish p (length p) (record w { copies = copies }), ok)
      → 0 < length p
      → ((i : ℕ)
          → i < w.manager.process_count
          → (w.shm_process i).read_count ≡ w.manager.write_count)
      → Written p w r

pub manager_write-Written :
    (p : Bytes) (w : World) → Written p w (manager_write (some p) (length p) w)
unfolding manager_write
manager_write-Written p w =
    elim (Bool-cases (ltb 0 (length p) && ltb (length p) w.manager.payload_max)) [
      | inl fits ↦ elim (Bool-cases (all_processes_read_ready w).1) [
        | inl ready ↦
            published (all_processes_read_ready w).0.copies (rw (fits, ready)) (ground arith)
              (λ i. all_ready w i ready)
        | inr late ↦
            refused (all_processes_read_ready w).0.copies (rw (fits, late)) (rw (fits, late) (cc))
      ]
      | inr other ↦ refused w.copies (rw other) (rw other (cc))
    ]

-- What a read in process `i` comes to.
pub data ReadBy (i : ℕ) (w : World) : World × Bytes × Code → Type 0 where
  nothing_new :
      {r : World × Bytes × Code}
      → (w.processes i).read_count ≡ w.shm_manager.write_count
      → r ≡ (record w { views = update w.views i w.shm_manager }, [], ok)
      → ReadBy i w r
  new_payload :
      {r : World × Bytes × Code}
      → (w.processes i).read_count ≡ previous w.shm_manager.write_count
      → r ≡ (take_payload i w.shm_manager w, take w.shm_manager.payload_bytes w.shm_payload, ok)
      → ReadBy i w r
  lost :
      {r : World × Bytes × Code}
      → (w.processes i).read_count ≢ w.shm_manager.write_count
      → (w.processes i).read_count ≢ previous w.shm_manager.write_count
      → ReadBy i w r

pub process_read-ReadBy : (i : ℕ) (w : World) → ReadBy i w (process_read i w)
unfolding process_read
process_read-ReadBy i w =
    elim (Bool-cases ((w.processes i).read_count == w.shm_manager.write_count)) [
      | inl e ↦ nothing_new (ground arith) (rw e)
      | inr ne ↦
          elim (Bool-cases ((w.processes i).read_count == previous w.shm_manager.write_count)) [
            | inl e ↦ new_payload (ground arith) (rw (ne, e))
            | inr ne' ↦ lost (ground arith) (ground arith)
          ]
    ]

pub previous_ne : (x : ℕ) → x < u32 → previous x ≢ x
previous_ne x h = omega arith

pub previous-next : (x : ℕ) → x < u32 → previous (next x) ≡ x
previous-next x h = omega arith

pub next-previous : (x : ℕ) → x < u32 → next (previous x) ≡ x
next-previous x h = omega arith
