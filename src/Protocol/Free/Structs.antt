-- ===== src/Protocol/Free/Structs.antt =====
-- What the functions that free a message free: its pointers, and the structure itself.
use libdynpm.Base.{ℕ, ◌≡◌, ◌≢◌, refl, false, [], ◌∷◌, ◌++◌, List, All, some, ◌==◌, length, arith}
use libdynpm.Text.Outcome.{Outcome, done, ◌>>=◌}
use libdynpm.Memory.{Heap, free, free_bare, free_field}
use libdynpm.Memory.Blocks.{release, without, AreBlocks, AreBlocks-release}
use libdynpm.Memory.Freeing.{free_lem, free_bare_lem, free_struct_lem}
use libdynpm.Protocol.Free.{
  free_header, free_register_connection_msg, free_deregister_connection_msg,
  free_resource_offer_msg, free_create_tbon_msg, free_ready_msg,
  free_deregister_process_manager_msg, free_allocation_request_msg, free_reallocation_start_msg,
  free_reallocation_complete_msg, free_dynamic_pm_launch_msg, free_dynamic_io_out_msg,
  free_report_process_data_msg,
}
use libdynpm.Protocol.Free.Applications.{Application, addresses, application_blocks, IsApplication}

-- The pointers of a message: none, one, two, three, or those of a process manager.
pub data Pointers : Type 0 where
  plain : Pointers
  one : ℕ → Pointers
  two : ℕ → ℕ → Pointers
  three : ℕ → ℕ → ℕ → Pointers
  -- `hostname`, `applications`, and what the elements of the array point to
  manager : ℕ → ℕ → List Application → Pointers

-- The words of the structure
abbrev pub words : Pointers → List ℕ
words plain = []
words (one p) = p ∷ []
words (two p q) = p ∷ q ∷ []
words (three p q r) = p ∷ q ∷ r ∷ []
words (manager host arr apps) = host ∷ length apps ∷ arr ∷ []

-- The blocks that the message owns besides the structure, in the order in which they are freed
abbrev pub owned : Pointers → List ℕ
owned plain = []
owned (one p) = p ∷ []
owned (two p q) = p ∷ q ∷ []
owned (three p q r) = p ∷ q ∷ r ∷ []
owned (manager host arr apps) = host ∷ application_blocks apps ++ arr ∷ []

-- The array of a process manager holds its applications.
abbrev pub HasArray : Pointers → Heap → Type 0
HasArray (manager host arr apps) h = (h arr ≡ some (addresses apps)) × All (IsApplication h) apps
HasArray _ h = Unit

-- A message at `msg`: every pointer is `NULL` or a block of its own, and none is in use twice.
pub record IsAt (msg : ℕ) (m : Pointers) (h : Heap) : Type 0 where
  pub not_null : msg ≢ 0
  pub structure : h msg ≡ some (words m)
  pub blocks : AreBlocks (owned m ++ msg ∷ []) h
  pub array : HasArray m h

-- The function frees the structure and what it owns, and nothing else.
abbrev pub Frees : (ℕ → Heap → Outcome Heap) → Pointers → Type 0
Frees f m = (msg : ℕ) (h : Heap) → IsAt msg m h → f msg h ≡ done (without (owned m ++ msg ∷ []) h)

pub is_block : (msg : ℕ) → msg ≢ 0 → (msg == 0) ≡ false
is_block msg ne = ground arith

pub free_header-Frees : Frees free_header plain
unfolding free_header without
free_header-Frees msg h v = rw (is_block msg v.not_null) (free_lem msg h v.blocks.0)

pub free_resource_offer-Frees : Frees free_resource_offer_msg plain
unfolding free_resource_offer_msg without
free_resource_offer-Frees msg h v = rw (is_block msg v.not_null) (free_lem msg h v.blocks.0)

pub free_ready-Frees : Frees free_ready_msg plain
unfolding free_ready_msg without
free_ready-Frees msg h v = rw (is_block msg v.not_null) (free_lem msg h v.blocks.0)

pub free_allocation_request-Frees : Frees free_allocation_request_msg plain
unfolding free_allocation_request_msg without
free_allocation_request-Frees msg h v = rw (is_block msg v.not_null) (free_lem msg h v.blocks.0)

-- `free` of the one pointer, without a test, and of the structure
bare_lem :
    (msg p : ℕ) (h : Heap)
    → IsAt msg (one p) h
    → (free_bare msg 0 h >>= λ h'. free msg h') ≡ done (without (p ∷ msg ∷ []) h)
unfolding without
bare_lem msg p h v =
    let (live, apart, more) = v.blocks in
    rw (free_bare_lem msg 0 p (p ∷ []) h v.structure refl live)
      (free_lem msg (release p h) (AreBlocks-release p (msg ∷ []) h apart more).0)

pub free_register-Frees : (p : ℕ) → Frees free_register_connection_msg (one p)
unfolding free_register_connection_msg
free_register-Frees p msg h v = rw (is_block msg v.not_null) (bare_lem msg p h v)

pub free_deregister-Frees : (p : ℕ) → Frees free_deregister_connection_msg (one p)
unfolding free_deregister_connection_msg
free_deregister-Frees p msg h v = rw (is_block msg v.not_null) (bare_lem msg p h v)

pub free_create_tbon-Frees : (p : ℕ) → Frees free_create_tbon_msg (one p)
unfolding free_create_tbon_msg
free_create_tbon-Frees p msg h v = rw (is_block msg v.not_null) (bare_lem msg p h v)

guarded_lem :
    (msg p : ℕ) (h : Heap)
    → IsAt msg (one p) h
    → (free_field msg 0 h >>= λ h'. free msg h') ≡ done (without (p ∷ msg ∷ []) h)
guarded_lem msg p h v =
    free_struct_lem msg (0 ∷ []) (p ∷ []) (p ∷ []) h v.structure (refl, tt) v.blocks

pub free_deregister_process_manager-Frees :
    (p : ℕ) → Frees free_deregister_process_manager_msg (one p)
unfolding free_deregister_process_manager_msg
free_deregister_process_manager-Frees p msg h v =
    rw (is_block msg v.not_null) (guarded_lem msg p h v)

pub free_reallocation_complete-Frees : (p : ℕ) → Frees free_reallocation_complete_msg (one p)
unfolding free_reallocation_complete_msg
free_reallocation_complete-Frees p msg h v = rw (is_block msg v.not_null) (guarded_lem msg p h v)

pub free_dynamic_pm_launch-Frees : (p : ℕ) → Frees free_dynamic_pm_launch_msg (one p)
unfolding free_dynamic_pm_launch_msg
free_dynamic_pm_launch-Frees p msg h v = rw (is_block msg v.not_null) (guarded_lem msg p h v)

pub free_report_process_data-Frees : (p : ℕ) → Frees free_report_process_data_msg (one p)
unfolding free_report_process_data_msg
free_report_process_data-Frees p msg h v = rw (is_block msg v.not_null) (guarded_lem msg p h v)

pub free_dynamic_io_out-Frees : (p q : ℕ) → Frees free_dynamic_io_out_msg (two p q)
unfolding free_dynamic_io_out_msg
free_dynamic_io_out-Frees p q msg h v = rw (is_block msg v.not_null) (
    free_struct_lem msg (0 ∷ 1 ∷ []) (p ∷ q ∷ []) (p ∷ q ∷ []) h v.structure (refl, (refl, tt))
      v.blocks)

pub free_reallocation_start-Frees : (p q r : ℕ) → Frees free_reallocation_start_msg (three p q r)
unfolding free_reallocation_start_msg
free_reallocation_start-Frees p q r msg h v = rw (is_block msg v.not_null) (
    free_struct_lem msg (0 ∷ 1 ∷ 2 ∷ []) (p ∷ q ∷ r ∷ []) (p ∷ q ∷ r ∷ []) h v.structure
      (refl, (refl, (refl, tt))) v.blocks)
