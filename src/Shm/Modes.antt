-- ===== src/Shm/Modes.antt =====
-- `dynpm_shm_manager_get_malleability_mode`: the manager polls the modes of its processes.
use libdynpm.Base.{
  ℕ, zero, suc, ◌+◌, ◌-◌, ◌≤◌, ◌<◌, ◌≡◌, ◌≢◌, refl, ◌∙◌, ap, true, false, Bool, ◌&&◌, ◌||◌, ltb,
  ◌==◌, if◌then◌else◌, arith, Bool-cases, inl, inr, sym,
}
use mathlib.Core.Path.{subst}
use native.Mathlib.Decide.{ℕ_discrete}
use libdynpm.Shm.World.{u32, next, previous, ProcessControl, World, copy_processes, tally}

-- `_sync_processes_meta`: the copies, and how many processes have an update that the manager has not
-- read, by the test of the code.
unfoldable pub sync_processes_meta : World → World × ℕ
unfolding copy_processes tally
sync_processes_meta w =
    let n = w.manager.process_count in
    let copies = copy_processes n w.shm_process w.copies in
    (
      record w { copies = copies },
      tally n (λ i.
          (copies i).write_count == previous w.manager.read_count && (copies i).payload_bytes == 0),
    )

-- `*status`
pub data Status : Type 0 where
  matching : Status  -- 0
  out_of_sync : Status  -- -1
  mismatch : Status  -- -2

-- The loop over the modes, with the rounds left: whether one differs from the first.
unfoldable pub differs : (ℕ → ProcessControl) → ℕ → ℕ → Bool
differs copies zero i = false
differs copies (suc rounds) i =
    let rest = differs copies rounds (i + 1) in
    if (copies 0).malleability_mode == (copies i).malleability_mode then rest else true

-- The manager's counter goes up if there are updates.
unfoldable pub acknowledge : ℕ → World → World
acknowledge meta_updates w =
    let m = record w.manager { read_count = next w.manager.read_count } in
    if ltb 0 meta_updates then record w { manager = m; shm_manager = m } else w

-- The mode, `*status` and whether the call returns 0. The array has a process: with none, the code
-- reads the mode of `process_control[0]` out of bounds.
unfoldable pub verdict : World → ℕ × Status × Bool
unfolding differs
verdict w =
    if differs w.copies (w.manager.process_count - 1) 1
    then (0, mismatch, false)
    else ((w.copies 0).malleability_mode, matching, true)

-- What follows the count of the updates.
unfoldable pub conclude : ℕ → World → World × (ℕ × Status × Bool)
unfolding acknowledge verdict
conclude meta_updates w =
    let w' = acknowledge meta_updates w in
    if meta_updates == w.manager.process_count || meta_updates == 0
    then (w', verdict w')
    else (w, (0, out_of_sync, false))

-- `dynpm_shm_manager_get_malleability_mode`
unfoldable pub get_malleability_mode : World → World × (ℕ × Status × Bool)
get_malleability_mode w = conclude (sync_processes_meta w).1 (sync_processes_meta w).0

pub tally-none : (n : ℕ) (test : ℕ → Bool) → ((i : ℕ) → i < n → test i ≡ false) → tally n test ≡ 0
unfolding tally
tally-none zero test h = refl
tally-none (suc n) test h =
    rw (h n (omega arith), tally-none n test (λ i lt. h i (omega arith))) refl

-- While the manager's counter is 0 and no process has made 2 ^ 32 - 1 updates, the count of updates is
-- 0, whatever updates the processes made.
sync_lem :
    (w : World)
    → w.manager.read_count ≡ 0
    → ((i : ℕ) → i < w.manager.process_count → (w.shm_process i).write_count < u32 - 1)
    → (sync_processes_meta w).1 ≡ 0
unfolding sync_processes_meta copy_processes
sync_lem w zero_count few = tally-none w.manager.process_count _ (λ i h. ground (arith, few i h))

conclude_none :
    (w : World)
    → ((conclude 0 w).0 ≡ w) × ((conclude 0 w).1 ≡ verdict w) × ((verdict w).1 ≢ out_of_sync)
unfolding conclude
conclude_none w = ground arith

-- The manager's counter is 0 at the start. While it is, and the counter of each process is below 2
-- ^ 32 - 1, a poll leaves the counter at 0 and never reports that the processes are out of sync,
-- even if only some of them have set their modes.
pub never_out_of_sync :
    (w : World)
    → w.manager.read_count ≡ 0
    → ((i : ℕ) → i < w.manager.process_count → (w.shm_process i).write_count < u32 - 1)
    → ((get_malleability_mode w).0.manager ≡ w.manager)
      × ((get_malleability_mode w).1.1 ≢ out_of_sync)
unfolding get_malleability_mode
never_out_of_sync w zero_count few =
    let (kept, told, synced) = conclude_none (sync_processes_meta w).0 in
    rw (sync_lem w zero_count few, kept, told) (unfold sync_processes_meta in refl, synced)

differs_never :
    (copies : ℕ → ProcessControl) (rounds i j : ℕ)
    → differs copies rounds i ≡ false
    → i ≤ j
    → j < i + rounds
    → (copies 0).malleability_mode ≡ (copies j).malleability_mode
unfolding differs
differs_never copies zero i j h lo hi = absurd (omega arith)
differs_never copies (suc rounds) i j h lo hi = elim (ℕ_discrete i j) [
  | yes e ↦
      subst (λ k. (copies 0).malleability_mode ≡ (copies k).malleability_mode) e (ground arith)
  | no ne ↦ differs_never copies rounds (i + 1) j (ground arith) (omega arith) (omega arith)
]

verdict_agrees :
    (w : World) (j : ℕ)
    → (verdict w).1 ≡ matching
    → j < w.manager.process_count
    → (w.copies j).malleability_mode ≡ (verdict w).0
unfolding verdict
verdict_agrees w zero h lt = ground arith
verdict_agrees w (suc j) h lt =
    ground (arith, differs_never w.copies (w.manager.process_count - 1) 1 (suc j))

verdict-acknowledge : (n : ℕ) (w : World) → verdict (acknowledge n w) ≡ verdict w
unfolding verdict acknowledge
verdict-acknowledge n w = elim (Bool-cases (ltb 0 n)) [
  | inl some_updates ↦ rw some_updates
  | inr none_new ↦ rw none_new
]

conclude_agrees :
    (n : ℕ) (w : World) (j : ℕ)
    → (conclude n w).1.1 ≡ matching
    → j < w.manager.process_count
    → (w.copies j).malleability_mode ≡ (conclude n w).1.0
unfolding conclude
conclude_agrees n w j h lt = elim (Bool-cases (n == w.manager.process_count || n == 0)) [
  | inl known ↦
      let same : (conclude n w).1 ≡ verdict w = rw known (verdict-acknowledge n w) in
      rw same (verdict_agrees w j (rw same at h) lt)
  | inr unknown ↦ let late : (conclude n w).1.1 ≡ out_of_sync = rw unknown in cc late
]

-- A poll that reports agreement returns the mode that every process has in its shared block.
pub modes_agree :
    (w : World) (j : ℕ)
    → (get_malleability_mode w).1.1 ≡ matching
    → j < w.manager.process_count
    → (w.shm_process j).malleability_mode ≡ (get_malleability_mode w).1.0
unfolding get_malleability_mode
modes_agree w j h lt =
    let copied : ((sync_processes_meta w).0.copies j) ≡ w.shm_process j =
      unfold sync_processes_meta copy_processes in ground arith in
    ap (λ (p : ProcessControl). p.malleability_mode) (sym copied)
    ∙ conclude_agrees (sync_processes_meta w).1 (sync_processes_meta w).0 j h
        (unfold sync_processes_meta in lt)
