-- ===== src/Protocol/Free.antt =====
-- The functions of src/network/protocol.c that free a message. The words of a structure are, in
-- order, its fields that hold a pointer, and `application_count`; a `NULL` message only gives a
-- line in the log.
use libdynpm.Base.{ℕ, zero, suc, ◌+◌, ◌==◌, if◌then◌else◌}
use libdynpm.Text.Outcome.{Outcome, done, ◌>>=◌}
use libdynpm.Memory.{Heap, load, free, free_bare, free_field}
pub mod Applications
pub mod Structs
pub mod Manager
pub mod Reading

unfoldable pub free_header : ℕ → Heap → Outcome Heap
free_header msg h = if msg == 0 then done h else free msg h

unfoldable pub free_register_connection_msg : ℕ → Heap → Outcome Heap
free_register_connection_msg msg h =
    if msg == 0 then done h else (do h' ← free_bare msg 0 h; free msg h')

unfoldable pub free_deregister_connection_msg : ℕ → Heap → Outcome Heap
free_deregister_connection_msg msg h =
    if msg == 0 then done h else (do h' ← free_bare msg 0 h; free msg h')

unfoldable pub free_resource_offer_msg : ℕ → Heap → Outcome Heap
free_resource_offer_msg msg h = if msg == 0 then done h else free msg h

unfoldable pub free_create_tbon_msg : ℕ → Heap → Outcome Heap
free_create_tbon_msg msg h = if msg == 0 then done h else (do h' ← free_bare msg 0 h; free msg h')

-- `_dynpm_free_ready_msg`, `dynpm_free_ready_tbon_msg`, `dynpm_free_ready_dynamic_pm_msg` and
-- `dynpm_free_processes_done_msg`
unfoldable pub free_ready_msg : ℕ → Heap → Outcome Heap
free_ready_msg msg h = if msg == 0 then done h else free msg h

-- The body of the loop of `dynpm_free_register_process_manager_msg`
unfoldable pub free_application : ℕ → Heap → Outcome Heap
free_application a h = if a == 0 then done h else (do h' ← free_field a 0 h; free a h')

-- The loop: `applications` and the element `app` are read again in each pass. The first argument is the
-- number of passes that are left.
unfoldable pub free_applications : ℕ → ℕ → ℕ → Heap → Outcome Heap
free_applications zero app msg h = done h
free_applications (suc n) app msg h = do
  applications ← load msg 2 h
  a ← load applications app h
  h' ← free_application a h
  free_applications n (app + 1) msg h'

unfoldable pub free_register_process_manager_msg : ℕ → Heap → Outcome Heap
free_register_process_manager_msg msg h = if msg == 0 then done h else (do
  h₁ ← free_field msg 0 h
  application_count ← load msg 1 h₁
  h₂ ← free_applications application_count 0 msg h₁
  h₃ ← free_field msg 2 h₂
  free msg h₃)

unfoldable pub free_deregister_process_manager_msg : ℕ → Heap → Outcome Heap
free_deregister_process_manager_msg msg h =
    if msg == 0 then done h else (do h' ← free_field msg 0 h; free msg h')

unfoldable pub free_allocation_request_msg : ℕ → Heap → Outcome Heap
free_allocation_request_msg msg h = if msg == 0 then done h else free msg h

unfoldable pub free_reallocation_start_msg : ℕ → Heap → Outcome Heap
free_reallocation_start_msg msg h = if msg == 0 then done h else (do
  h₁ ← free_field msg 0 h
  h₂ ← free_field msg 1 h₁
  h₃ ← free_field msg 2 h₂
  free msg h₃)

unfoldable pub free_reallocation_complete_msg : ℕ → Heap → Outcome Heap
free_reallocation_complete_msg msg h =
    if msg == 0 then done h else (do h' ← free_field msg 0 h; free msg h')

unfoldable pub free_dynamic_pm_launch_msg : ℕ → Heap → Outcome Heap
free_dynamic_pm_launch_msg msg h =
    if msg == 0 then done h else (do h' ← free_field msg 0 h; free msg h')

unfoldable pub free_dynamic_io_out_msg : ℕ → Heap → Outcome Heap
free_dynamic_io_out_msg msg h =
    if msg == 0 then done h else (do h₁ ← free_field msg 0 h; h₂ ← free_field msg 1 h₁; free msg h₂)

unfoldable pub free_report_process_data_msg : ℕ → Heap → Outcome Heap
free_report_process_data_msg msg h =
    if msg == 0 then done h else (do h' ← free_field msg 0 h; free msg h')
