-- ===== src/Network/Client/Sending.antt =====
-- `dynpm_send_message_to_server` of src/network/client.c, up to the message that waits.
use libdynpm.Base.{
  ℕ, ◌≡◌, ◌≢◌, ◌∙◌, refl, ap, true, [], ◌∷◌, ◌++◌, some, get_elem?, set, arith, get_elem?-set_self,
  get_elem?-set_ne, lt_of_get_elem?,
}
use libdynpm.Text.Outcome.{done}
use libdynpm.Text.Buffer.{Buffer}
use libdynpm.Protocol.Frame.{IsMessageBuffer}
use libdynpm.Protocol.Header.{Header, IsHeader, MessageType, code, of_code, of_code-code}
use libdynpm.Network.Call.{returned}
use libdynpm.Network.Queue.{enqueue-append}
use libdynpm.Network.Message.{Message, client_case}
use libdynpm.Network.Message.ReadBack.{ClientSends, ReadsBack, client_case-ReadsBack}
use libdynpm.Network.Message.Size.{client_case-IsMessageBuffer}
use libdynpm.Network.Client.Table.{Client, ServerConnection, connection_at, send_on, send_message}
use libdynpm.Network.Client.Laws.{IsClient, replace-IsClient}

connection_at_lem :
    (c : Client) (i : ℕ) (s : ServerConnection)
    → IsClient c
    → get_elem? c.table i ≡ some (some s)
    → connection_at i c ≡ returned (some s)
unfolding connection_at
connection_at_lem c i s v e = ground (arith, v.ready, v.free)

send_on_lem :
    (memory b : Buffer) (h : Header) (m : Message) (s : ServerConnection)
    → client_case (of_code h.message_type) h m memory ≡ some (done b)
    → send_on memory h m s ≡ returned (record s { messages = s.messages ++ b ∷ [] }, true)
unfolding send_on client_case
send_on_lem memory b h m s e = rw (e, enqueue-append)

-- A message of a type that the client sends, other than a resource offer, of the structure that the
-- type says and with fields that its format carries, sent on an entry in use of a well-formed
-- client: the call returns 0, behind the messages of the entry stands one buffer more, of the
-- message size, which its reader reads back as the message, no other entry changes, and the client
-- is well formed. The memory has the message size, the header is of that type and holds words, and
-- where a process manager is registered the variable of the writer's loop happens to hold 0.
pub send_message_lem :
    (memory : Buffer) (h : Header) (t : MessageType) (m : Message) (c : Client) (i : ℕ)
    (s : ServerConnection)
    → IsClient c
    → get_elem? c.table i ≡ some (some s)
    → IsHeader h
    → h.message_type ≡ code t
    → IsMessageBuffer memory
    → ClientSends t m
    → (c' : Client) × (b : Buffer) × (send_message memory h m i c ≡ returned (c', true))
      × (get_elem? c'.table i ≡ some (some (record s { messages = s.messages ++ b ∷ [] })))
      × ((j : ℕ) → i ≢ j → get_elem? c'.table j ≡ get_elem? c.table j)
      × IsClient c'
      × ReadsBack m b
      × IsMessageBuffer b
unfolding send_message
send_message_lem memory h t m c i s v e words type size sends =
    let (b, written, reads) = client_case-ReadsBack h memory words size sends in
    let is_type : of_code h.message_type ≡ some t = ap of_code type ∙ of_code-code t in
    let case : client_case (of_code h.message_type) h m memory ≡ some (done b) =
      ap (λ o. client_case o h m memory) is_type ∙ written in
    let s' : ServerConnection = record s { messages = s.messages ++ b ∷ [] } in
    (
      record c { table = set c.table i (some s') },
      b,
      rw (connection_at_lem c i s v e, send_on_lem memory b h m s case),
      get_elem?-set_self c.table i (some s') (lt_of_get_elem? c.table i e),
      (λ j ne. get_elem?-set_ne c.table (some s') ne),
      replace-IsClient c i s s' v e refl,
      reads,
      client_case-IsMessageBuffer h memory words size b sends written,
    )
