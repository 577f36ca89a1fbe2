-- ===== src/Network/Message/ReadBack.antt =====
-- What a receiver reads of the messages that the two `switch` statements write.
use libdynpm.Base.{◌≡◌, ap, some}
use libdynpm.Text.Outcome.{done, >>=-eq-done}
use libdynpm.Text.Buffer.{Buffer}
use libdynpm.Protocol.Frame.{IsMessageBuffer}
use libdynpm.Protocol.Header.{Header, IsHeader, MessageType}
use libdynpm.Protocol.Connection.{
  IsRegisterConnectionMsg, IsDeregisterConnectionMsg, RegisterConnectionMsg,
  DeregisterConnectionMsg, deserialize_register_connection_msg,
  deserialize_deregister_connection_msg, deserialize-serialize_register_connection_msg,
  deserialize-serialize_deregister_connection_msg,
}
use libdynpm.Protocol.Tree.{
  IsCreateTbonMsg, IsReadyMsg, CreateTbonMsg, ReadyMsg, deserialize_create_tbon_msg,
  deserialize_ready_msg, deserialize-serialize_create_tbon_msg, deserialize-serialize_ready_msg,
  serialize_ready_tbon_msg, serialize_ready_dynamic_pm_msg, serialize_processes_done_msg,
}
use libdynpm.Protocol.Resources.{
  IsAllocationRequestMsg, AllocationRequestMsg, deserialize_allocation_request_msg,
  deserialize-serialize_allocation_request_msg,
}
use libdynpm.Protocol.Reallocation.{
  IsReallocationStartMsg, ReallocationStartMsg, deserialize_reallocation_start_msg,
  deserialize-serialize_reallocation_start_msg,
}
use libdynpm.Protocol.Payload.{IsPayload}
use libdynpm.Protocol.Dynamic.{
  IsDynamicPmLaunchMsg, IsDynamicIoOutMsg, DynamicPmLaunchMsg, DynamicIoOutMsg,
  deserialize_dynamic_pm_launch_msg, deserialize_dynamic_io_out_msg,
  deserialize-serialize_dynamic_pm_launch_msg, deserialize-serialize_dynamic_io_out_msg,
}
use libdynpm.Protocol.Report.{
  IsReportProcessDataMsg, ReportProcessDataMsg, deserialize_report_process_data_msg,
  deserialize-serialize_report_process_data_msg,
}
use libdynpm.Protocol.ProcessManager.{
  RegisterProcessManagerMsg, deserialize_register_process_manager_msg,
}
use libdynpm.Protocol.ProcessManager.RoundTrip.{
  IsRegisterProcessManagerMsg, deserialize-serialize_register_process_manager_msg,
}
use libdynpm.Network.Message.{Message, client_case, ServerCase, server_case}

-- A message of the structure that its type says, with fields that the format can carry, in the cases
-- that the client sends. The resource offer is not among them.
pub data ClientSends : MessageType → Message → Type 0 where
  registers :
      {m : RegisterConnectionMsg}
      → IsRegisterConnectionMsg m
      → ClientSends MessageType.register_connection (Message.register_connection m)
  deregisters :
      {m : DeregisterConnectionMsg}
      → IsDeregisterConnectionMsg m
      → ClientSends MessageType.deregister_connection (Message.deregister_connection m)
  creates :
      {m : CreateTbonMsg}
      → IsCreateTbonMsg m
      → ClientSends MessageType.create_tbon (Message.create_tbon m)
  launches :
      {m : DynamicPmLaunchMsg}
      → IsDynamicPmLaunchMsg m
      → IsPayload m.payload_bytes m.payload
      → ClientSends MessageType.dynamic_pm_launch (Message.dynamic_pm_launch m)
  requests :
      {m : AllocationRequestMsg}
      → IsAllocationRequestMsg m
      → ClientSends MessageType.allocation_request (Message.allocation_request m)
  -- where the loop's variable happens to hold 0
  manages :
      {m : RegisterProcessManagerMsg}
      → IsRegisterProcessManagerMsg m
      → ClientSends MessageType.register_process_manager (Message.register_process_manager 0 m)

-- The same for the server; the resource offer is not among them.
pub data ServerSends : MessageType → Message → Type 0 where
  tbon_ready : {m : ReadyMsg} → IsReadyMsg m → ServerSends MessageType.ready_tbon (Message.ready m)
  pm_ready :
      {m : ReadyMsg} → IsReadyMsg m → ServerSends MessageType.ready_dynamic_pm (Message.ready m)
  all_done :
      {m : ReadyMsg} → IsReadyMsg m → ServerSends MessageType.processes_done (Message.ready m)
  prints :
      {m : DynamicIoOutMsg}
      → IsDynamicIoOutMsg m
      → IsPayload m.payload_bytes m.payload
      → ServerSends MessageType.dynamic_io_out (Message.dynamic_io_out m)
  reports :
      {m : ReportProcessDataMsg}
      → IsReportProcessDataMsg m
      → IsPayload m.payload_bytes m.payload
      → ServerSends MessageType.report_process_data (Message.report_process_data m)
  reallocates :
      {m : ReallocationStartMsg}
      → IsReallocationStartMsg m
      → ServerSends MessageType.reallocation_start (Message.reallocation_start m)

-- The reader of the message's structure gives back the message.
abbrev pub ReadsBack : Message → Buffer → Type 0
ReadsBack (Message.register_connection m) b = deserialize_register_connection_msg b ≡ done m
ReadsBack (Message.register_process_manager app m) b =
    (left : Buffer) × (deserialize_register_process_manager_msg b ≡ done (m, left))
ReadsBack (Message.deregister_connection m) b = deserialize_deregister_connection_msg b ≡ done m
ReadsBack (Message.create_tbon m) b = deserialize_create_tbon_msg b ≡ done m
ReadsBack (Message.dynamic_pm_launch m) b = deserialize_dynamic_pm_launch_msg b ≡ done m
ReadsBack (Message.allocation_request m) b = deserialize_allocation_request_msg b ≡ done m
ReadsBack (Message.ready m) b = deserialize_ready_msg b ≡ done m
ReadsBack (Message.dynamic_io_out m) b = deserialize_dynamic_io_out_msg b ≡ done m
ReadsBack (Message.report_process_data m) b = deserialize_report_process_data_msg b ≡ done m
ReadsBack (Message.reallocation_start m) b = deserialize_reallocation_start_msg b ≡ done m
ReadsBack _ b = ⊥

module _ (h : Header) (memory : Buffer) (v : IsHeader h) (size : IsMessageBuffer memory) where
  pub client_case-ReadsBack :
      {t : MessageType} {m : Message}
      → ClientSends t m
      → (b : Buffer) × (client_case (some t) h m memory ≡ some (done b)) × ReadsBack m b
  unfolding client_case
  client_case-ReadsBack (registers {m} w) =
      let (b, written, reads) =
        >>=-eq-done _ _ (deserialize-serialize_register_connection_msg h m memory v w size) in
      (b, ap some written, reads)
  client_case-ReadsBack (deregisters {m} w) =
      let (b, written, reads) =
        >>=-eq-done _ _ (deserialize-serialize_deregister_connection_msg h m memory v w size) in
      (b, ap some written, reads)
  client_case-ReadsBack (creates {m} w) =
      let (b, written, reads) =
        >>=-eq-done _ _ (deserialize-serialize_create_tbon_msg h m memory v w size) in
      (b, ap some written, reads)
  client_case-ReadsBack (launches {m} w p) =
      let (b, written, reads) =
        >>=-eq-done _ _ (deserialize-serialize_dynamic_pm_launch_msg h m memory v w p size) in
      (b, ap some written, reads)
  client_case-ReadsBack (requests {m} w) =
      let (b, written, reads) =
        >>=-eq-done _ _ (deserialize-serialize_allocation_request_msg h m memory v w size) in
      (b, ap some written, reads)
  client_case-ReadsBack (manages {m} w) =
      let (left, whole) = deserialize-serialize_register_process_manager_msg h m memory v w size in
      let (b, written, reads) = >>=-eq-done _ _ whole in (b, ap some written, (left, reads))

  pub server_case-ReadsBack :
      {t : MessageType} {m : Message}
      → ServerSends t m
      → (b : Buffer) × (server_case (some t) h m memory ≡ ServerCase.written (done b))
        × ReadsBack m b
  unfolding server_case serialize_ready_tbon_msg serialize_ready_dynamic_pm_msg
      serialize_processes_done_msg
  server_case-ReadsBack (tbon_ready {m} w) =
      let (b, written, reads) =
        >>=-eq-done _ _ (deserialize-serialize_ready_msg h m memory v w size) in
      (b, ap ServerCase.written written, reads)
  server_case-ReadsBack (pm_ready {m} w) =
      let (b, written, reads) =
        >>=-eq-done _ _ (deserialize-serialize_ready_msg h m memory v w size) in
      (b, ap ServerCase.written written, reads)
  server_case-ReadsBack (all_done {m} w) =
      let (b, written, reads) =
        >>=-eq-done _ _ (deserialize-serialize_ready_msg h m memory v w size) in
      (b, ap ServerCase.written written, reads)
  server_case-ReadsBack (prints {m} w p) =
      let (b, written, reads) =
        >>=-eq-done _ _ (deserialize-serialize_dynamic_io_out_msg h m memory v w p size) in
      (b, ap ServerCase.written written, reads)
  server_case-ReadsBack (reports {m} w p) =
      let (b, written, reads) =
        >>=-eq-done _ _ (deserialize-serialize_report_process_data_msg h m memory v w p size) in
      (b, ap ServerCase.written written, reads)
  server_case-ReadsBack (reallocates {m} w) =
      let (b, written, reads) =
        >>=-eq-done _ _ (deserialize-serialize_reallocation_start_msg h m memory v w size) in
      (b, ap ServerCase.written written, reads)
