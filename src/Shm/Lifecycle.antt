-- ===== src/Shm/Lifecycle.antt =====
-- The beginning and the end of the shared memory (src/shm/shm.c): the calls of the system that can
-- fail, the names of the blocks, and the pointers that are checked.
use libdynpm.Base.{
  ℕ, ◌+◌, ◌-◌, ◌^◌, ◌≡◌, ◌≢◌, ◌↔◌, sym, ap, ◌∙◌, true, false, Bool, not, ◌&&◌, [], ◌∷◌, List, All,
  Option, none, some, ltb, inl, inr, if◌then◌else◌, arith, Bool-cases,
}
use libdynpm.Text.Chars.{Bytes, codes, same_text, same_text_refl}
use libdynpm.Text.Format.{num, directives, print}
use libdynpm.Network.Call.{Call, returned, stopped, crashed}

-- `shm_fd`, a `uint32_t`, after `shm_open`: `none` is its -1.
abbrev pub shm_fd : Option ℕ → ℕ
shm_fd none = 2 ^ 32 - 1
shm_fd (some fd) = fd

-- How the calls on one block end.
pub record Calls : Type 0 where
  pub opened : Option ℕ
  pub truncated : Bool
  pub mapped : Bool

-- The documented behaviour of `ftruncate`: it fails on a descriptor that is not open.
pub record IsCalls (c : Calls) : Type 0 where
  pub bad_descriptor : c.opened ≡ none → c.truncated ≡ false

-- What `_init_manager_shm` and `_init_process_shm` return, without the sign
unfoldable pub init_code : Calls → ℕ
init_code c =
    if ltb (shm_fd c.opened) 0
    then 3
    else if not c.truncated
    then 1
    else if not c.mapped
    then 2
    else 0

-- What `dynpm_shm_manager_init` returns, without the sign: the sum for the manager and its processes
unfoldable pub manager_init_code : Calls → List Calls → ℕ
unfolding init_code
manager_init_code manager [] = init_code manager
manager_init_code manager (p ∷ processes) = init_code p + manager_init_code manager processes

abbrev pub HasSucceeded : Calls → Type 0
HasSucceeded c = (c.opened ≢ none) × (c.truncated ≡ true) × (c.mapped ≡ true)

init_code_lem : (c : Calls) → IsCalls c → (init_code c ≡ 0) ↔ HasSucceeded c
unfolding init_code
init_code_lem c v = ((λ e. ground arith), (λ s. ground arith))

-- The names of the blocks that exist, and the pointers `manager_control` and `process_control` of one
-- process: whether they are not null.
pub record Node : Type 0 where
  pub names : Bytes → Bool
  pub manager_control : Bool
  pub process_control : Bool

abbrev pub manager_path : ℕ → ℕ → Bytes
manager_path job application =
    print (directives (codes "/dynpm_%d_%d")) (num job ∷ num application ∷ [])

abbrev pub process_path : ℕ → ℕ → ℕ → Bytes
process_path job application pid =
    print (directives (codes "/dynpm_%d_%d_%d")) (num job ∷ num application ∷ num pid ∷ [])

-- The descriptors that `shm_open` gives for the manager's block and that of the process, if they exist,
-- and whether `mmap` succeeds on a descriptor that is open.
pub record Blocks : Type 0 where
  pub manager_fd : ℕ
  pub process_fd : ℕ
  pub manager_maps : Bool
  pub process_maps : Bool

-- `shm_open` without `O_CREAT`: it fails on a name that does not exist.
abbrev pub open_existing : Node → Bytes → ℕ → Option ℕ
open_existing n path fd = if n.names path then some fd else none

-- `dynpm_shm_process_attach`: the pointers, and what it returns, without the sign. `mmap` fails on a
-- descriptor that is not open.
unfoldable pub process_attach : Blocks → ℕ → ℕ → ℕ → Node → Call (Node × ℕ)
process_attach blocks job application pid n =
    let own = process_path job application pid in
    let path = manager_path job application in
    let n₁ = record n { manager_control = true } in
    let n₂ = record n { manager_control = true; process_control = true } in
    if n.manager_control
    then stopped
    else if ltb (shm_fd (open_existing n path blocks.manager_fd)) 0
    then returned (n₁, 2)
    else if not (n.names path && blocks.manager_maps)
    then returned (n₁, 5)
    else if n.process_control
    then stopped
    else if ltb (shm_fd (open_existing n own blocks.process_fd)) 0
    then returned (n₂, 3)
    else if not (n.names own && blocks.process_maps)
    then returned (n₂, 1)
    else returned (n₂, 0)

-- `dynpm_shm_process_detach` and `dynpm_shm_manager_finalize`, which do the same
unfoldable pub detach : ℕ → ℕ → Node → Call Node
detach job application n =
    if n.manager_control
    then returned (record n {
      names = λ path. if same_text path (manager_path job application) then false else n.names path;
      manager_control = false;
    })
    else crashed

-- The manager's start returns 0 if and only if every call of the system has succeeded for its block and
-- for each of the processes, although the test of the descriptor never fails.
pub manager_init_code_lem :
    (manager : Calls) (processes : List Calls)
    → IsCalls manager
    → All IsCalls processes
    → (manager_init_code manager processes ≡ 0)
      ↔ (HasSucceeded manager × All HasSucceeded processes)
unfolding manager_init_code
manager_init_code_lem manager [] v w =
    let own = init_code_lem manager v in ((λ e. (own.0 e, tt)), (λ s. own.1 s.0))
manager_init_code_lem manager (p ∷ processes) v w =
    let rest = manager_init_code_lem manager processes v w.1 in
    let own = init_code_lem p w.0 in
    (
      (λ e.
          let none_before : manager_init_code manager processes ≡ 0 = omega arith in
          let none_here : init_code p ≡ 0 = omega arith in
          let before = rest.0 none_before in (before.0, (own.0 none_here, before.1))),
      (λ s. omega (arith, rest.1 (s.0, s.1.1), own.1 s.1.0)),
    )

abbrev name_of : Bytes → Call Node → Bool
name_of path (returned n) = n.names path
name_of path _ = true

-- After `shm_unlink` the manager's block has no name.
unlinked :
    (job application : ℕ) (n n₁ : Node)
    → detach job application n ≡ returned n₁
    → n₁.names (manager_path job application) ≡ false
unfolding detach
unlinked job application n n₁ h = elim (Bool-cases n.manager_control) [
  | inl e ↦
      let path = manager_path job application in
      sym (ap (name_of path) h) ∙ rw (e, same_text_refl path)
  | inr e ↦ ground arith
]

-- A process whose attachment has failed cannot try again: the next call stops it.
pub process_attach_again :
    (blocks again : Blocks) (job application pid code : ℕ) (n m : Node)
    → process_attach blocks job application pid n ≡ returned (m, code)
    → code ≢ 0
    → process_attach again job application pid m ≡ stopped
unfolding process_attach
process_attach_again blocks again job application pid code n m h failed =
    let held : m.manager_control ≡ true = ground arith in rw held

-- After one process has detached itself, the manager's block has no name any more: any other process
-- with the same view of the names that has not attached itself yet gets -5.
pub process_attach-detach :
    (blocks : Blocks) (job application pid : ℕ) (n n₁ m : Node)
    → detach job application n ≡ returned n₁
    → m.names ≡ n₁.names
    → m.manager_control ≡ false
    → process_attach blocks job application pid m
      ≡ returned (record m { manager_control = true }, 5)
unfolding process_attach detach
process_attach-detach blocks job application pid n n₁ m h same null =
    let gone : m.names (manager_path job application) ≡ false =
      ap (λ f. f (manager_path job application)) same ∙ unlinked job application n n₁ h in
    rw (null, gone)
