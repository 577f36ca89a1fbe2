-- ===== src/Network/Message.antt =====
-- The messages that the two `switch` statements over a header's type send
-- (`_dynpm_internal_send_message_to_server`, `dynpm_send_message_to_client_connection`).
use libdynpm.Base.{ℕ, Option, none, some}
use libdynpm.Text.Outcome.{Outcome, fault}
use libdynpm.Text.Buffer.{Buffer}
use libdynpm.Protocol.Header.{Header, MessageType}
use libdynpm.Protocol.Connection.{
  RegisterConnectionMsg, DeregisterConnectionMsg, serialize_register_connection_msg,
  serialize_deregister_connection_msg,
}
use libdynpm.Protocol.Tree.{
  CreateTbonMsg, ReadyMsg, serialize_create_tbon_msg, serialize_ready_tbon_msg,
  serialize_ready_dynamic_pm_msg, serialize_processes_done_msg,
}
use libdynpm.Protocol.Offer.{ResourceOfferMsg, serialize_resource_offer_msg}
use libdynpm.Protocol.Resources.{AllocationRequestMsg, serialize_allocation_request_msg}
use libdynpm.Protocol.Reallocation.{ReallocationStartMsg, serialize_reallocation_start_msg}
use libdynpm.Protocol.Dynamic.{
  DynamicPmLaunchMsg, DynamicIoOutMsg, serialize_dynamic_pm_launch_msg,
  serialize_dynamic_io_out_msg,
}
use libdynpm.Protocol.Report.{ReportProcessDataMsg, serialize_report_process_data_msg}
use libdynpm.Protocol.ProcessManager.{
  RegisterProcessManagerMsg, serialize_register_process_manager_msg,
}
pub mod ReadBack
pub mod Size
pub mod Ownership
pub mod Freed

-- What a `void *` message points to.
pub data Message : Type 0 where
  register_connection : RegisterConnectionMsg → Message
  deregister_connection : DeregisterConnectionMsg → Message
  create_tbon : CreateTbonMsg → Message
  offer_resources : ResourceOfferMsg → Message
  dynamic_pm_launch : DynamicPmLaunchMsg → Message
  -- with what the memory of the uninitialised `app` holds
  register_process_manager : ℕ → RegisterProcessManagerMsg → Message
  allocation_request : AllocationRequestMsg → Message
  ready : ReadyMsg → Message
  dynamic_io_out : DynamicIoOutMsg → Message
  report_process_data : ReportProcessDataMsg → Message
  reallocation_start : ReallocationStartMsg → Message
  other : Message

-- The cases of the client's `switch`: `none` for `default`. A message of another structure than its
-- header says is read through the wrong pointer.
unfoldable pub client_case :
    Option MessageType → Header → Message → Buffer → Option (Outcome Buffer)
client_case (some MessageType.register_connection) h (register_connection m) b =
    some (serialize_register_connection_msg h m b)
client_case (some MessageType.register_connection) h _ b = some fault
client_case (some MessageType.deregister_connection) h (deregister_connection m) b =
    some (serialize_deregister_connection_msg h m b)
client_case (some MessageType.deregister_connection) h _ b = some fault
client_case (some MessageType.create_tbon) h (create_tbon m) b =
    some (serialize_create_tbon_msg h m b)
client_case (some MessageType.create_tbon) h _ b = some fault
client_case (some MessageType.offer_resources) h (offer_resources m) b =
    some (serialize_resource_offer_msg h m b)
client_case (some MessageType.offer_resources) h _ b = some fault
client_case (some MessageType.dynamic_pm_launch) h (dynamic_pm_launch m) b =
    some (serialize_dynamic_pm_launch_msg h m b)
client_case (some MessageType.dynamic_pm_launch) h _ b = some fault
client_case (some MessageType.register_process_manager) h (register_process_manager app m) b =
    some (serialize_register_process_manager_msg app h m b)
client_case (some MessageType.register_process_manager) h _ b = some fault
client_case (some MessageType.allocation_request) h (allocation_request m) b =
    some (serialize_allocation_request_msg h m b)
client_case (some MessageType.allocation_request) h _ b = some fault
client_case _ h m b = none

-- The cases of the server's `switch`.
pub data ServerCase : Type 0 where
  -- a buffer to enqueue
  written : Outcome Buffer → ServerCase
  -- `goto` the error label, with `messages_mutex` held
  refused : ServerCase
  -- `default`, which unlocks `mutex` first
  unknown : ServerCase

unfoldable pub server_case : Option MessageType → Header → Message → Buffer → ServerCase
server_case (some MessageType.register_connection) h m b = refused
server_case (some MessageType.deregister_connection) h m b = refused
server_case (some MessageType.offer_resources) h (offer_resources m) b =
    written (serialize_resource_offer_msg h m b)
server_case (some MessageType.offer_resources) h _ b = written fault
server_case (some MessageType.ready_tbon) h (ready m) b = written (serialize_ready_tbon_msg h m b)
server_case (some MessageType.ready_tbon) h _ b = written fault
server_case (some MessageType.ready_dynamic_pm) h (ready m) b =
    written (serialize_ready_dynamic_pm_msg h m b)
server_case (some MessageType.ready_dynamic_pm) h _ b = written fault
server_case (some MessageType.dynamic_io_out) h (dynamic_io_out m) b =
    written (serialize_dynamic_io_out_msg h m b)
server_case (some MessageType.dynamic_io_out) h _ b = written fault
server_case (some MessageType.processes_done) h (ready m) b =
    written (serialize_processes_done_msg h m b)
server_case (some MessageType.processes_done) h _ b = written fault
server_case (some MessageType.report_process_data) h (report_process_data m) b =
    written (serialize_report_process_data_msg h m b)
server_case (some MessageType.report_process_data) h _ b = written fault
server_case (some MessageType.reallocation_start) h (reallocation_start m) b =
    written (serialize_reallocation_start_msg h m b)
server_case (some MessageType.reallocation_start) h _ b = written fault
server_case _ h m b = unknown
