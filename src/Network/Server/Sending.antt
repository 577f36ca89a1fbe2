-- ===== src/Network/Server/Sending.antt =====
-- What `dynpm_send_message_to_client_connection` does to the connection.
use libdynpm.Base.{◌∙◌, some, ◌≡◌, refl, ap, true, false, [], ◌∷◌, ◌++◌, ◌⊎◌, inl, inr}
use libdynpm.Text.Buffer.{Buffer}
use libdynpm.Text.Outcome.{done}
use libdynpm.Protocol.Header.{Header, of_code, IsHeader, MessageType, code, of_code-code}
use libdynpm.Protocol.Frame.{IsMessageBuffer}
use libdynpm.Network.Message.ReadBack.{ServerSends, ReadsBack, server_case-ReadsBack}
use libdynpm.Network.Message.Size.{server_case-IsMessageBuffer}
use libdynpm.Network.Call.{returned, blocked}
use libdynpm.Network.Queue.{enqueue-append}
use libdynpm.Network.Message.{Message, ServerCase, server_case}
use libdynpm.Network.Server.Registry.{
  ClientConnection, send_buffer_to_client, send_message_to_client,
}

-- A message that the server sends, whose buffer is written, is put behind all messages that wait at the
-- connection; the call returns 0, and the mutex of the messages is free again.
pub send_message_to_client-append :
    (memory b : Buffer) (h : Header) (m : Message) (o : ClientConnection)
    → o.messages_locked ≡ false
    → server_case (of_code h.message_type) h m memory ≡ ServerCase.written (done b)
    → send_message_to_client memory h m o
      ≡ returned (record o { messages = o.messages ++ (b ∷ []); messages_locked = false }, true)
unfolding send_message_to_client
send_message_to_client-append memory b h m o free written =
    rw (free, written, enqueue-append)
      (ap (λ l. returned (record o { messages = o.messages ++ b ∷ []; messages_locked = l }, true))
        free)

-- On a connection whose mutex of messages is free, a message type that the server does not send is
-- refused with -1, the waiting messages unchanged; from then on the mutex is held, and every send
-- of a message or a buffer on this connection waits forever.
pub send_message_to_client_refused :
    (memory : Buffer) (h : Header) (m : Message) (o : ClientConnection)
    → o.messages_locked ≡ false
    → (server_case (of_code h.message_type) h m memory ≡ ServerCase.refused)
      ⊎ (server_case (of_code h.message_type) h m memory ≡ ServerCase.unknown)
    → (after : ClientConnection) × (send_message_to_client memory h m o ≡ returned (after, false))
      × (after.messages ≡ o.messages)
      × ((b : Buffer) → send_buffer_to_client b after ≡ blocked)
      × ((memory' : Buffer) (h' : Header) (m' : Message)
          → send_message_to_client memory' h' m' after ≡ blocked)
unfolding send_message_to_client send_buffer_to_client
send_message_to_client_refused memory h m o free (inl refused) =
    (record o { messages_locked = true }, rw (free, refused), refl, λ _. refl, λ _ _ _. refl)
send_message_to_client_refused memory h m o free (inr unknown) =
    (record o { messages_locked = true }, rw (free, unknown), refl, λ _. refl, λ _ _ _. refl)

-- A message of a type that the server sends, other than a resource offer, of the structure that the
-- type says and with fields that its format carries, on a connection whose mutex of messages is
-- free: the call returns 0, behind the waiting messages stands one buffer more, of the message
-- size, which its reader reads back as the message, and the mutex is free. The memory has the
-- message size, and the header is of that type and holds words.
pub send_message_to_client_lem :
    (memory : Buffer) (h : Header) (t : MessageType) (m : Message) (o : ClientConnection)
    → o.messages_locked ≡ false
    → IsHeader h
    → h.message_type ≡ code t
    → IsMessageBuffer memory
    → ServerSends t m
    → (b : Buffer) × (send_message_to_client memory h m o
        ≡ returned (record o { messages = o.messages ++ b ∷ []; messages_locked = false }, true))
      × ReadsBack m b
      × IsMessageBuffer b
send_message_to_client_lem memory h t m o free words type size sends =
    let (b, written, reads) = server_case-ReadsBack h memory words size sends in
    let is_type : of_code h.message_type ≡ some t = ap of_code type ∙ of_code-code t in
    (
      b,
      send_message_to_client-append memory b h m o free
          (ap (λ k. server_case k h m memory) is_type ∙ written),
      reads,
      server_case-IsMessageBuffer h memory words size b sends written,
    )
