-- ===== src/Network/Reply.antt =====
-- A message from `dynpm_send_message_to_client_connection` of a server to the handler of its client.
use libdynpm.Base.{◌≡◌, ◌∙◌, ap, sym, true, false, [], ◌∷◌, ◌++◌, List, some, length, inl, inr}
use libdynpm.Text.Chars.{Bytes}
use libdynpm.Text.Buffer.{Buffer}
use libdynpm.Protocol.Frame.{IsMessageBuffer}
use libdynpm.Protocol.Header.{Header, IsHeader, MessageType, code}
use libdynpm.Network.Call.{returned}
use libdynpm.Network.Message.{Message}
use libdynpm.Network.Message.ReadBack.{ServerSends, ReadsBack}
use libdynpm.Network.Queue.{flush}
use libdynpm.Network.Receive.{concat, client_on_read, handles}
use libdynpm.Network.Receive.Blocks.{client_on_read_lem}
use libdynpm.Network.Server.{ClientConnection, send_message_to_client}
use libdynpm.Network.Server.Sending.{send_message_to_client_lem}
use libdynpm.Network.Server.Callbacks.{Link, write_head, server_on_write}

-- Whatever chunks one whole message comes in, the client's handler gets it.
client_gets :
    (fresh b : Buffer) (chunks : List Bytes)
    → IsMessageBuffer fresh
    → IsMessageBuffer b
    → concat chunks ≡ b
    → client_on_read fresh (length b) chunks ≡ handles b
client_gets fresh b chunks size whole same = elim (client_on_read_lem fresh chunks size) [
  | inl (full, handled) ↦
      ap (λ w. client_on_read fresh (length w) chunks) (sym same) ∙ handled ∙ ap handles same
  | inr (short, _) ↦ absurd (short (ap length same ∙ whole))
]

-- A message that the server sends, other than a resource offer, on a connection where nothing waits
-- and both mutexes are free: the call returns 0, and one write callback writes one buffer and
-- leaves nothing waiting. A network that keeps the bytes in order brings it, in whatever chunks, to
-- the client, whose read callback gives its handler exactly that buffer, and its reader reads it
-- back as the message. The message has the structure of its type and fields that its format
-- carries, the header is of that type and holds words, and both blocks of memory have the message
-- size.
pub reply_delivered :
    (network : Bytes → List Bytes) (fresh memory : Buffer) (h : Header) (t : MessageType)
    (m : Message) (l : Link)
    → ((w : Bytes) → concat (network w) ≡ w)
    → l.connection.messages ≡ []
    → l.connection.messages_locked ≡ false
    → l.mutex_locked ≡ false
    → IsHeader h
    → h.message_type ≡ code t
    → IsMessageBuffer memory
    → IsMessageBuffer fresh
    → ServerSends t m
    → (b : Buffer) × (o : ClientConnection) × (send_message_to_client memory h m l.connection
        ≡ returned (o, true))
      × (server_on_write true (some (record l { connection = o }))
          ≡ returned
              (record l { connection = record o { messages = [] }; written = l.written ++ b ∷ [] }))
      × (client_on_read fresh (length b) (network b) ≡ handles b)
      × ReadsBack m b
unfolding server_on_write write_head flush
reply_delivered network fresh memory h t m l keeps none_waits free unlocked words type size
      fresh_size sends =
    let (b, sent, reads, full) =
      send_message_to_client_lem memory h t m l.connection free words type size sends in
    let o : ClientConnection = record l.connection { messages = b ∷ []; messages_locked = false } in
    let sent_one : send_message_to_client memory h m l.connection ≡ returned (o, true) =
      sent
      ∙ ap
          (λ ms.
            returned
              (record l.connection { messages = ms ++ b ∷ []; messages_locked = false }, true))
          none_waits in
    (b, o, sent_one, rw unlocked, client_gets fresh b (network b) fresh_size full (keeps b), reads)
