-- ===== src/Protocol/Header.antt =====
-- The header that starts every message, and the message types of include/dynpm_network.h.
use libdynpm.Base.{ℕ, ◌≡◌, refl, [], ◌∷◌, List, Option, some, arith, get_elem?}
use libdynpm.Text.Outcome.{Outcome, done, unset, ◌>>=◌}
use libdynpm.Text.Format.{Value, num, directives}
use libdynpm.Text.Scan.{word}
use libdynpm.Text.RoundTrip.{number_space, number, finished}
use libdynpm.Text.Buffer.{Buffer, sprintf, sscanf}
use libdynpm.Protocol.Frame.{IsWord, IsMessageBuffer, read_back}

pub data MessageType : Type 0 where
  invalid_message : MessageType
  register_connection : MessageType
  deregister_connection : MessageType
  register_process_manager : MessageType
  register_process_manager_ack : MessageType
  deregister_process_manager : MessageType
  offer_resources : MessageType
  create_tbon : MessageType
  ready_tbon : MessageType
  ready_tbon_ack : MessageType
  allocation_request : MessageType
  reallocation_start : MessageType
  reallocation_start_ack : MessageType
  reallocation_complete : MessageType
  dynamic_pm_launch : MessageType
  ready_dynamic_pm : MessageType
  dynamic_io_out : MessageType
  dynamic_io_out_ack : MessageType
  processes_done : MessageType
  processes_done_ack : MessageType
  poll_process_data : MessageType
  report_process_data : MessageType

-- The types in the order of the enumeration, from 0.
abbrev message_types : List MessageType
message_types =
    invalid_message ∷ register_connection ∷ deregister_connection ∷ register_process_manager
    ∷ register_process_manager_ack ∷ deregister_process_manager ∷ offer_resources ∷ create_tbon
    ∷ ready_tbon ∷ ready_tbon_ack ∷ allocation_request ∷ reallocation_start ∷ reallocation_start_ack
    ∷ reallocation_complete ∷ dynamic_pm_launch ∷ ready_dynamic_pm ∷ dynamic_io_out
    ∷ dynamic_io_out_ack ∷ processes_done ∷ processes_done_ack ∷ poll_process_data
    ∷ report_process_data ∷ []

-- The value of each enumerator.
abbrev pub code : MessageType → ℕ
code invalid_message = 0
code register_connection = 1
code deregister_connection = 2
code register_process_manager = 3
code register_process_manager_ack = 4
code deregister_process_manager = 5
code offer_resources = 6
code create_tbon = 7
code ready_tbon = 8
code ready_tbon_ack = 9
code allocation_request = 10
code reallocation_start = 11
code reallocation_start_ack = 12
code reallocation_complete = 13
code dynamic_pm_launch = 14
code ready_dynamic_pm = 15
code dynamic_io_out = 16
code dynamic_io_out_ack = 17
code processes_done = 18
code processes_done_ack = 19
code poll_process_data = 20
code report_process_data = 21

-- The enumerator with a value; `none` is a value that a `switch` over the type sends to `default`.
abbrev pub of_code : ℕ → Option MessageType
of_code n = get_elem? message_types n

pub of_code-code : (t : MessageType) → of_code (code t) ≡ some t
of_code-code invalid_message = refl
of_code-code register_connection = refl
of_code-code deregister_connection = refl
of_code-code register_process_manager = refl
of_code-code register_process_manager_ack = refl
of_code-code deregister_process_manager = refl
of_code-code offer_resources = refl
of_code-code create_tbon = refl
of_code-code ready_tbon = refl
of_code-code ready_tbon_ack = refl
of_code-code allocation_request = refl
of_code-code reallocation_start = refl
of_code-code reallocation_start_ack = refl
of_code-code reallocation_complete = refl
of_code-code dynamic_pm_launch = refl
of_code-code ready_dynamic_pm = refl
of_code-code dynamic_io_out = refl
of_code-code dynamic_io_out_ack = refl
of_code-code processes_done = refl
of_code-code processes_done_ack = refl
of_code-code poll_process_data = refl
of_code-code report_process_data = refl

pub record Header : Type 0 where
  pub source_type : ℕ  -- uint32_t
  pub message_type : ℕ  -- uint32_t

pub record IsHeader (h : Header) : Type 0 where
  pub source : IsWord h.source_type
  pub message : IsWord h.message_type

-- `dynpm_serialize_header`
unfoldable pub serialize_header : Header → Buffer → Outcome Buffer
serialize_header h b = sprintf "%d %d" (num h.source_type ∷ num h.message_type ∷ []) b

unfoldable pub from_values : List Value → Outcome Header
from_values (num s ∷ num m ∷ []) = done (record { source_type = s; message_type = m })
from_values _ = unset

-- `dynpm_deserialize_header`
unfoldable pub deserialize_header : Buffer → Outcome Header
unfolding from_values
deserialize_header b = do vs ← sscanf "%d %d" (word ∷ word ∷ []) b; from_values vs

-- In a buffer of the message size, a header of two 32-bit words is written, and read back as it was.
pub deserialize-serialize_header :
    (h : Header) (b : Buffer)
    → IsHeader h
    → IsMessageBuffer b
    → (do b' ← serialize_header h b; deserialize_header b') ≡ done h
unfolding serialize_header deserialize_header directives from_values
deserialize-serialize_header h b v size =
    read_back "%d %d" "%d %d" (number_space v.source (number v.message tt finished)) (omega arith)
      from_values b (omega arith)
