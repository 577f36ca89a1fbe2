-- ===== src/Network/Message/Size.antt =====
-- The size of what the cases of the two `switch` statements write.
use libdynpm.Base.{
  ℕ, ◌+◌, ◌≤◌, ◌≡◌, ◌∙◌, sym, ap, List, String, Option, some, ltb, leb, leb→le, Bool-cases, inl,
  inr, length, length-append, length-take, length-drop, arith, take, drop, ◌++◌,
}
use mathlib.Core.Option.{some-injective}
use libdynpm.Text.Chars.{Bytes}
use libdynpm.Text.Format.{Value}
use libdynpm.Text.Outcome.{fault, Outcome, done, or_fault, >>=-eq-done}
use libdynpm.Text.Buffer.{size_of, Buffer, write, read, sprintf}
use libdynpm.Protocol.Frame.{IsMessageBuffer}
use libdynpm.Protocol.Payload.{payload_offset, check_text, attach}
use libdynpm.Protocol.Header.{Header, IsHeader, MessageType}
use libdynpm.Protocol.Connection.{
  serialize_register_connection_msg, serialize_deregister_connection_msg,
}
use libdynpm.Protocol.ProcessManager.RoundTrip.{
  serialize_register_process_manager_msg-IsMessageBuffer,
}
use libdynpm.Protocol.Tree.{
  serialize_create_tbon_msg, serialize_ready_msg, serialize_ready_tbon_msg,
  serialize_ready_dynamic_pm_msg, serialize_processes_done_msg,
}
use libdynpm.Protocol.Resources.{serialize_allocation_request_msg}
use libdynpm.Protocol.Reallocation.{serialize_reallocation_start_msg}
use libdynpm.Protocol.Dynamic.{serialize_dynamic_pm_launch_msg, serialize_dynamic_io_out_msg}
use libdynpm.Protocol.Report.{serialize_report_process_data_msg}
use libdynpm.Network.Message.{Message, client_case, ServerCase, server_case}
use libdynpm.Network.Message.ReadBack.{
  ClientSends, registers, deregisters, creates, launches, requests, manages, ServerSends,
  tbon_ready, pm_ready, all_done, prints, reports, reallocates,
}

length-spliced :
    (off : ℕ) (s : Bytes) (b : Buffer)
    → off + length s ≤ length b
    → length (take off b ++ (s ++ drop (off + length s) b)) ≡ length b
length-spliced off s b h =
    let rear = drop (off + length s) b in
    omega (
      arith,
      length-append (take off b) (s ++ rear),
      length-append s rear,
      length-take off b (omega arith),
      length-drop (off + length s) b,
    )

length-write :
    (off : ℕ) (s : Bytes) (b b' : Buffer)
    → or_fault (write off s b) ≡ done b'
    → length b' ≡ length b
unfolding write
length-write off s b b' h = elim (Bool-cases (leb (off + length s) (length b))) [
  | inl e ↦ sym (ap size_of h) ∙ rw e (length-spliced off s b (leb→le _ _ e))
  | inr e ↦ ground arith
]

length-sprintf :
    (format : String) (vs : List Value) (b b' : Buffer)
    → sprintf format vs b ≡ done b'
    → length b' ≡ length b
unfolding sprintf
length-sprintf format vs b b' h = length-write 0 _ b b' h

length-attach :
    (n : ℕ) (payload : Option Bytes) (b b' : Buffer)
    → attach n payload b ≡ done b'
    → length b' ≡ length b
unfolding attach
length-attach n payload b b' h = elim (Bool-cases (ltb 0 n)) [
  | inl e ↦
      let (p, present, h₁) = >>=-eq-done (or_fault payload) _ (rw e at h) in
      let (q, found, h₂) = >>=-eq-done (or_fault (read 0 n p)) _ h₁ in
      length-write payload_offset q b b' h₂
  | inr e ↦ sym (ap size_of h) ∙ rw e
]

abbrev written_of : ServerCase → Outcome Buffer
written_of (ServerCase.written o) = o
written_of _ = fault

written_injective : {o o' : Outcome Buffer} → ServerCase.written o ≡ ServerCase.written o' → o ≡ o'
written_injective e = ap written_of e

module _ (h : Header) (memory : Buffer) (words : IsHeader h) (size : IsMessageBuffer memory) where
  -- What the client's cases write has the message size.
  pub client_case-IsMessageBuffer :
      {t : MessageType} {m : Message} (b : Buffer)
      → ClientSends t m
      → client_case (some t) h m memory ≡ some (done b)
      → IsMessageBuffer b
  unfolding client_case serialize_register_connection_msg serialize_deregister_connection_msg
      serialize_create_tbon_msg serialize_allocation_request_msg serialize_dynamic_pm_launch_msg
  client_case-IsMessageBuffer b (registers {m} w) e =
      length-sprintf _ _ memory b (some-injective _ _ e) ∙ size
  client_case-IsMessageBuffer b (deregisters {m} w) e =
      length-sprintf _ _ memory b (some-injective _ _ e) ∙ size
  client_case-IsMessageBuffer b (creates {m} w) e =
      length-sprintf _ _ memory b (some-injective _ _ e) ∙ size
  client_case-IsMessageBuffer b (requests {m} w) e =
      length-sprintf _ _ memory b (some-injective _ _ e) ∙ size
  client_case-IsMessageBuffer b (launches {m} w p) e =
      let (b₁, printed, e₁) = >>=-eq-done (sprintf _ _ memory) _ (some-injective _ _ e) in
      let (u, checked, e₂) = >>=-eq-done (check_text b₁) _ e₁ in
      length-attach m.payload_bytes m.payload b₁ b e₂ ∙ length-sprintf _ _ memory b₁ printed ∙ size
  client_case-IsMessageBuffer b (manages {m} w) e =
      serialize_register_process_manager_msg-IsMessageBuffer h m memory b words w size
        (some-injective _ _ e)

  -- What the server's cases write has the message size.
  pub server_case-IsMessageBuffer :
      {t : MessageType} {m : Message} (b : Buffer)
      → ServerSends t m
      → server_case (some t) h m memory ≡ ServerCase.written (done b)
      → IsMessageBuffer b
  unfolding server_case serialize_ready_tbon_msg serialize_ready_dynamic_pm_msg
      serialize_processes_done_msg serialize_ready_msg serialize_reallocation_start_msg
      serialize_dynamic_io_out_msg serialize_report_process_data_msg
  server_case-IsMessageBuffer b (tbon_ready {m} w) e =
      length-sprintf _ _ memory b (written_injective e) ∙ size
  server_case-IsMessageBuffer b (pm_ready {m} w) e =
      length-sprintf _ _ memory b (written_injective e) ∙ size
  server_case-IsMessageBuffer b (all_done {m} w) e =
      length-sprintf _ _ memory b (written_injective e) ∙ size
  server_case-IsMessageBuffer b (reallocates {m} w) e =
      length-sprintf _ _ memory b (written_injective e) ∙ size
  server_case-IsMessageBuffer b (prints {m} w p) e =
      let (b₁, printed, e₁) = >>=-eq-done (sprintf _ _ memory) _ (written_injective e) in
      let (u, checked, e₂) = >>=-eq-done (check_text b₁) _ e₁ in
      length-attach m.payload_bytes m.payload b₁ b e₂ ∙ length-sprintf _ _ memory b₁ printed ∙ size
  server_case-IsMessageBuffer b (reports {m} w p) e =
      let (b₁, printed, e₁) = >>=-eq-done (sprintf _ _ memory) _ (written_injective e) in
      let (u, checked, e₂) = >>=-eq-done (check_text b₁) _ e₁ in
      length-attach m.payload_bytes m.payload b₁ b e₂ ∙ length-sprintf _ _ memory b₁ printed ∙ size
