-- ===== src/Network/Message/Ownership.antt =====
-- The memory of the messages that the two `switch` statements over a header's type send: the caller
-- gives up the header and the message. `buffer` is what the `malloc` of the function returned.
use libdynpm.Base.{ℕ, ◌≡◌, ◌≢◌, true, false, Bool, [], ◌∷◌, ◌++◌, List, Option, none, some}
use libdynpm.Text.Outcome.{Outcome, ◌>>=◌}
use libdynpm.Memory.{Heap, free}
use libdynpm.Memory.Blocks.{AreBlocks}
use libdynpm.Protocol.Header.{MessageType}
use libdynpm.Protocol.Free.{
  free_header, free_register_connection_msg, free_deregister_connection_msg,
  free_resource_offer_msg, free_create_tbon_msg, free_ready_msg, free_register_process_manager_msg,
  free_allocation_request_msg, free_reallocation_start_msg, free_dynamic_pm_launch_msg,
  free_dynamic_io_out_msg, free_report_process_data_msg,
}
use libdynpm.Protocol.Free.Applications.{Application}
use libdynpm.Protocol.Free.Structs.{
  Pointers, plain, one, two, three, manager, words, owned, HasArray,
}

-- The function that the client's `switch` frees a message with; `none` for `default`.
unfoldable pub client_free : Option MessageType → Option (ℕ → Heap → Outcome Heap)
client_free (some MessageType.register_connection) = some free_register_connection_msg
client_free (some MessageType.deregister_connection) = some free_deregister_connection_msg
client_free (some MessageType.create_tbon) = some free_create_tbon_msg
client_free (some MessageType.offer_resources) = some free_resource_offer_msg
client_free (some MessageType.dynamic_pm_launch) = some free_dynamic_pm_launch_msg
client_free (some MessageType.register_process_manager) = some free_register_process_manager_msg
client_free (some MessageType.allocation_request) = some free_allocation_request_msg
client_free _ = none

-- What `_dynpm_internal_send_message_to_server` frees
unfoldable pub client_send_frees : Option MessageType → ℕ → ℕ → ℕ → Heap → Outcome Heap
client_send_frees type header msg buffer h = elim (client_free type) [
  | none ↦ (do h₁ ← free_header header h; h₂ ← free msg h₁; free buffer h₂)
  | some free_msg ↦ (do h₁ ← free_msg msg h; h₂ ← free_header header h₁; free buffer h₂)
]

-- The function that the server's `switch` frees a message with; `none` for the types that go to the
-- error label.
unfoldable pub server_free : Option MessageType → Option (ℕ → Heap → Outcome Heap)
server_free (some MessageType.offer_resources) = some free_resource_offer_msg
server_free (some MessageType.ready_tbon) = some free_ready_msg
server_free (some MessageType.ready_dynamic_pm) = some free_ready_msg
server_free (some MessageType.dynamic_io_out) = some free_dynamic_io_out_msg
server_free (some MessageType.processes_done) = some free_ready_msg
server_free (some MessageType.report_process_data) = some free_report_process_data_msg
server_free (some MessageType.reallocation_start) = some free_reallocation_start_msg
server_free _ = none

-- What `dynpm_send_message_to_client_connection` frees, for a connection that is not `NULL`
unfoldable pub server_send_frees : Option MessageType → ℕ → ℕ → ℕ → Heap → Outcome Heap
server_send_frees type header msg buffer h = elim (server_free type) [
  | none ↦ (do h₁ ← free_header header h; h₂ ← free buffer h₁; free msg h₂)
  | some free_msg ↦ (do h₁ ← free_msg msg h; h₂ ← free_header header h₁; free buffer h₂)
]

-- The pointers of a message whose type the client sends, or any message where the type goes to
-- `default`; with whether what the message owns is freed.
pub data ClientOwns : Option MessageType → Pointers → Bool → Type 0 where
  registers : {p : ℕ} → ClientOwns (some MessageType.register_connection) (one p) true
  deregisters : {p : ℕ} → ClientOwns (some MessageType.deregister_connection) (one p) true
  creates : {p : ℕ} → ClientOwns (some MessageType.create_tbon) (one p) true
  offers : ClientOwns (some MessageType.offer_resources) plain true
  launches : {p : ℕ} → ClientOwns (some MessageType.dynamic_pm_launch) (one p) true
  manages :
      {host arr : ℕ} {apps : List Application}
      → ClientOwns (some MessageType.register_process_manager) (manager host arr apps) true
  requests : ClientOwns (some MessageType.allocation_request) plain true
  unknown :
      {type : Option MessageType} {m : Pointers} → client_free type ≡ none → ClientOwns type m false

-- The same for the server
pub data ServerOwns : Option MessageType → Pointers → Bool → Type 0 where
  offers : ServerOwns (some MessageType.offer_resources) plain true
  tbon_ready : ServerOwns (some MessageType.ready_tbon) plain true
  pm_ready : ServerOwns (some MessageType.ready_dynamic_pm) plain true
  prints : {p q : ℕ} → ServerOwns (some MessageType.dynamic_io_out) (two p q) true
  all_done : ServerOwns (some MessageType.processes_done) plain true
  reports : {p : ℕ} → ServerOwns (some MessageType.report_process_data) (one p) true
  starts : {p q r : ℕ} → ServerOwns (some MessageType.reallocation_start) (three p q r) true
  unknown :
      {type : Option MessageType} {m : Pointers} → server_free type ≡ none → ServerOwns type m false

-- The blocks that are freed
abbrev pub client_blocks : Bool → Pointers → ℕ → ℕ → ℕ → List ℕ
client_blocks true m header msg buffer = (owned m ++ msg ∷ []) ++ header ∷ buffer ∷ []
client_blocks false m header msg buffer = header ∷ msg ∷ buffer ∷ []

abbrev pub server_blocks : Bool → Pointers → ℕ → ℕ → ℕ → List ℕ
server_blocks true m header msg buffer = (owned m ++ msg ∷ []) ++ header ∷ buffer ∷ []
server_blocks false m header msg buffer = header ∷ buffer ∷ msg ∷ []

-- A message with its header and the buffer, each a block of its own.
pub record AreApart (header msg buffer : ℕ) (m : Pointers) (h : Heap) : Type 0 where
  pub header_not_null : header ≢ 0
  pub not_null : msg ≢ 0
  pub structure : h msg ≡ some (words m)
  pub array : HasArray m h
  pub blocks : AreBlocks ((owned m ++ msg ∷ []) ++ header ∷ buffer ∷ []) h
