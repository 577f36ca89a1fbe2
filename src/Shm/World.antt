-- ===== src/Shm/World.antt =====
-- The control blocks, the shared blocks and the operations of the manager and of the processes.
-- An operation runs as a whole; the numbers are `uint32_t`.
use libdynpm.Base.{
  ==_iff, Bool-cases, inl, inr, ◌≢◌, ℕ, zero, suc, ◌+◌, ◌-◌, ◌*◌, ◌%◌, ◌^◌, ◌≡◌, refl, Bool, ◌&&◌,
  [], ◌++◌, Option, none, some, ltb, ◌==◌, if◌then◌else◌, take, drop,
}
use libdynpm.Text.Chars.{Bytes}

abbrev pub u32 : ℕ
u32 = 2 ^ 32

-- `x + 1` and `x - 1` in `uint32_t`
abbrev pub next : ℕ → ℕ
next x = (x + 1) % u32

abbrev pub previous : ℕ → ℕ
previous x = (x + u32 - 1) % u32

-- The first 64 bytes of `dynpm_shm_manager_control_t`, which go through the shared block.
pub record ManagerControl : Type 0 where
  pub read_count : ℕ
  pub write_count : ℕ
  pub manager_pid : ℕ
  pub job_index : ℕ
  pub application_index : ℕ
  pub shm_mapped_bytes : ℕ
  pub process_count : ℕ
  pub node_status : ℕ
  pub payload_max : ℕ
  pub payload_bytes : ℕ

-- The first 64 bytes of `dynpm_shm_process_control_t`.
pub record ProcessControl : Type 0 where
  pub read_count : ℕ
  pub write_count : ℕ
  pub process_pid : ℕ
  pub job_index : ℕ
  pub application_index : ℕ
  pub shm_mapped_bytes : ℕ
  pub malleability_mode : ℕ
  pub process_status : ℕ
  pub payload_max : ℕ
  pub payload_bytes : ℕ

-- The manager's own control block and its copies of the processes', the blocks in shared memory, and
-- the processes' own control blocks, by index; `views` are the processes' copies of the manager's.
pub record World : Type 0 where
  pub manager : ManagerControl
  pub copies : ℕ → ProcessControl
  pub shm_manager : ManagerControl
  pub shm_payload : Bytes
  pub shm_process : ℕ → ProcessControl
  pub processes : ℕ → ProcessControl
  pub views : ℕ → ManagerControl

abbrev pub update {ℓ} : {A : Type ℓ} → (ℕ → A) → ℕ → A → ℕ → A
update f i a j = if i == j then a else f j

pub update_self {ℓ} : {A : Type ℓ} (f : ℕ → A) (i : ℕ) (a : A) → update f i a i ≡ a
update_self f i a = rw ((==_iff i i).1 refl)

pub update_ne {ℓ} : {A : Type ℓ} (f : ℕ → A) (i j : ℕ) (a : A) → i ≢ j → update f i a j ≡ f j
update_ne f i j a ne = elim (Bool-cases (i == j)) [
  | inl e ↦ absurd (ne ((==_iff i j).0 e))
  | inr other ↦ rw other
]

-- `_init_manager_shm`, where every call of the system succeeds
unfoldable pub init_manager : ℕ → ℕ → ℕ → ℕ → ℕ → ManagerControl
init_manager job_index application_index shm_pages process_count pid = record {
  read_count = 0;
  write_count = 0;
  manager_pid = pid;
  job_index = job_index;
  application_index = application_index;
  shm_mapped_bytes = shm_pages * 4096;
  process_count = process_count;
  node_status = 0;
  payload_max = shm_pages * 4096 - 64;
  payload_bytes = 0;
}

-- `_init_process_shm`, where every call of the system succeeds
unfoldable pub init_process : ℕ → ℕ → ℕ → ℕ → ProcessControl
init_process job_index application_index shm_pages process_pid = record {
  read_count = 0;
  write_count = 0;
  process_pid = process_pid;
  job_index = job_index;
  application_index = application_index;
  shm_mapped_bytes = shm_pages * 4096;
  malleability_mode = 0;
  process_status = 0;
  payload_max = shm_pages * 4096 - 64;
  payload_bytes = 0;
}

-- `dynpm_shm_manager_init`, then `dynpm_shm_process_attach` in each process: the manager's block and
-- the processes' are copied from shared memory. `payload` is what the payload's memory holds at first.
unfoldable pub start : ℕ → ℕ → ℕ → ℕ → (ℕ → ℕ) → ℕ → ℕ → Bytes → World
unfolding init_manager init_process
start job_index application_index manager_pages process_pages pids process_count pid payload =
    let m = init_manager job_index application_index manager_pages process_count pid in
    let p = λ (i : ℕ). init_process job_index application_index process_pages (pids i) in
    record {
      manager = m;
      copies = p;
      shm_manager = m;
      shm_payload = payload;
      shm_process = p;
      processes = p;
      views = λ i. m;
    }

-- `memcpy(process_control[i], process_control[i]->shm_base, 64)` for the first `n` processes
unfoldable pub copy_processes : ℕ → (ℕ → ProcessControl) → (ℕ → ProcessControl) → ℕ → ProcessControl
copy_processes n shared copies i = if ltb i n then shared i else copies i

-- How many of the first `n` processes pass a test
unfoldable pub tally : ℕ → (ℕ → Bool) → ℕ
tally zero test = 0
tally (suc n) test = tally n test + (if test n then 1 else 0)

-- `_all_processes_read_ready`
unfoldable pub all_processes_read_ready : World → World × Bool
unfolding copy_processes tally
all_processes_read_ready w =
    let n = w.manager.process_count in
    let copies = copy_processes n w.shm_process w.copies in
    (
      record w { copies = copies },
      tally n (λ i. (copies i).read_count == w.manager.write_count) == n,
    )

-- The return codes of the operations; `ok` is 0, and each error its own negative number.
pub data Code : Type 0 where
  ok : Code
  null_payload : Code  -- -1
  not_ready : Code  -- -2
  invalid_size : Code  -- -3
  missed : Code  -- -1 of `dynpm_shm_process_read`

-- The end of `dynpm_shm_manager_write`: the payload first, then the counters.
unfoldable pub publish : Bytes → ℕ → World → World
publish payload payload_bytes w =
    let m = record w.manager {
      payload_bytes = payload_bytes;
      write_count = next w.manager.write_count;
    } in
    record w {
      shm_payload = take payload_bytes payload ++ drop payload_bytes w.shm_payload;
      manager = m;
      shm_manager = m;
    }

-- `dynpm_shm_manager_write`; a null payload is `none`.
unfoldable pub manager_write : Option Bytes → ℕ → World → World × Code
unfolding all_processes_read_ready publish
manager_write none payload_bytes w = (w, null_payload)
manager_write (some payload) payload_bytes w =
    if ltb 0 payload_bytes && ltb payload_bytes w.manager.payload_max
    then (let (w', ready) = all_processes_read_ready w in
        if ready then (publish payload payload_bytes w', ok) else (w', not_ready))
    else (w, invalid_size)

-- The read of a new payload by process `i`: what is read, and the counters after it.
unfoldable pub take_payload : ℕ → ManagerControl → World → World
take_payload i view w =
    let p = record (w.processes i) { read_count = next (w.processes i).read_count } in
    record w {
      processes = update w.processes i p;
      shm_process = update w.shm_process i p;
      views = update w.views i view;
    }

-- `dynpm_shm_process_read` in process `i`; the bytes read are returned, none where there is nothing
-- new.
unfoldable pub process_read : ℕ → World → World × Bytes × Code
unfolding take_payload
process_read i w =
    let view = w.shm_manager in
    let synced = record w { views = update w.views i view } in
    if (w.processes i).read_count == view.write_count
    then (synced, [], ok)
    else if (w.processes i).read_count == previous view.write_count
    then (take_payload i view w, take view.payload_bytes w.shm_payload, ok)
    else (synced, [], missed)

-- `dynpm_shm_process_set_malleability_mode` in process `i`
unfoldable pub set_malleability_mode : ℕ → ℕ → World → World
set_malleability_mode i mode w =
    let p = record (w.processes i) {
      malleability_mode = mode;
      write_count = next (w.processes i).write_count;
      payload_bytes = 0;
    } in
    record w { processes = update w.processes i p; shm_process = update w.shm_process i p }
