-- ===== src/Network/Server/Registry.antt =====
-- The state of the server and its operations.
use libdynpm.Base.{
  ℕ, zero, suc, ◌+◌, true, false, Bool, [], ◌∷◌, List, Option, none, some, ◌==◌, if◌then◌else◌,
  get_elem?,
}
use libdynpm.Text.Chars.{Bytes, same_text}
use libdynpm.Text.Buffer.{Buffer}
use libdynpm.Protocol.Header.{Header, MessageType, code, of_code, deserialize_header}
use libdynpm.Protocol.Connection.{
  RegisterConnectionMsg, deserialize_register_connection_msg, deserialize_deregister_connection_msg,
}
use libdynpm.Network.Call.{Call, returned, crashed, ◌>>=◌, ◌>>◌, lock, of_outcome}
use libdynpm.Network.Queue.{enqueue}
use libdynpm.Network.Message.{Message, ServerCase, server_case}
use libdynpm.Network.Client.{Client, ServerConnection, disconnect}

-- `dynpm_server_to_client_connection_t`. The process id and the host are not assigned until the client
-- registers: `none`. `messages_locked` is its `messages_mutex`.
pub record ClientConnection : Type 0 where
  pub pid : Option ℕ
  pub host : Option Bytes
  pub fd : ℕ
  pub messages : List Buffer
  pub messages_locked : Bool

-- The connections by address, the addresses in the list `head`, and `registration_mutex`.
pub record Server : Type 0 where
  pub objects : ℕ → ClientConnection
  pub head : List ℕ
  pub locked : Bool

abbrev pub put_object : Server → ℕ → ClientConnection → Server
put_object s a o = record s { objects = λ b. if a == b then o else s.objects b }

-- `_client_connection_event_handler`, as far as the connection goes: an object with no message.
unfoldable pub accept_connection : ℕ → ℕ → Server → Server
accept_connection a fd s =
    put_object s a
      (record { pid = none; host = none; fd = fd; messages = []; messages_locked = false })

-- `_client_connection_setup`
unfoldable pub connection_setup : ℕ → Server → Call Server
connection_setup a s = lock s.locked >> returned (record s { head = a ∷ s.head })

-- `_register_client_connection`
unfoldable pub register_client : ℕ → RegisterConnectionMsg → Server → Server
register_client a m s =
    put_object s a (record (s.objects a) { pid = some m.pid; host = some m.hostname })

-- `_compare_id_host`, with a test connection of that host and process id. The host is compared only if
-- the ids agree; what was never assigned is read as indeterminate memory.
unfoldable pub compare_id_host : ClientConnection → Bytes → ℕ → Call Bool
compare_id_host o host pid = elim o.pid [
  | none ↦ crashed
  | some p ↦
      if p == pid
      then elim o.host [ none ↦ crashed | some h ↦ returned (same_text h host) ]
      else returned false
]

-- The loop of `dynpm_find_client_connection_in_list`
unfoldable pub find_from : (ℕ → ClientConnection) → List ℕ → Bytes → ℕ → Call (Option ℕ)
find_from objects [] host pid = returned none
find_from objects (a ∷ addresses) host pid = do
  same ← compare_id_host (objects a) host pid
  let rest = find_from objects addresses host pid
  if same then returned (some a) else rest

-- `dynpm_find_client_connection_in_list`
unfoldable pub find_client : Bytes → ℕ → Server → Call (Option ℕ)
unfolding find_from
find_client host pid s = find_from s.objects s.head host pid

-- `_is_client_connection_in_list`
unfoldable pub is_listed : ℕ → List ℕ → Bool
is_listed a [] = false
is_listed a (b ∷ addresses) = let rest = is_listed a addresses in if b == a then true else rest

-- `LIST_REMOVE` of the element that the loop found
unfoldable pub unlink : ℕ → List ℕ → List ℕ
unlink a [] = []
unlink a (b ∷ addresses) = let rest = b ∷ unlink a addresses in if b == a then addresses else rest

-- `_remove_client_connection_from_list`; a connection that is not in the list is left.
unfoldable pub remove_client : ℕ → Server → Server
unfolding unlink
remove_client a s = record s { head = unlink a s.head }

-- `_deregister_client_connection`
unfoldable pub deregister_client : ℕ → Server → Call Server
unfolding remove_client
deregister_client a s = lock s.locked >> returned (remove_client a s)

-- `_dynpm_top_server_handler`, with the handler that the program gave to the server.
module _ (handler : ℕ → Buffer → Server → Call Server) where
  unfoldable pub top_handler : ℕ → Buffer → Server → Call Server
  unfolding register_client deregister_client
  top_handler a b s = do
    h ← of_outcome (deserialize_header b)
    let registers = (do
      m ← of_outcome (deserialize_register_connection_msg b)
      returned (register_client a m s))
    let deregisters = (do
      _ ← of_outcome (deserialize_deregister_connection_msg b)
      deregister_client a s)
    if h.message_type == code MessageType.register_connection
        then registers
        else if h.message_type == code MessageType.deregister_connection
        then deregisters
        else handler a b s

-- The connections to servers whose parent is the connection at `a`
abbrev pub is_child_of : ℕ → Option ServerConnection → Bool
is_child_of a none = false
is_child_of a (some c) = elim c.parent_connection [ none ↦ false | some p ↦ p == a ]

-- The loop of `_server_on_error` over the table of the client, with the entries left and the index.
unfoldable pub disconnect_children : ℕ → ℕ → ℕ → Client → Call Client
disconnect_children a zero index c = returned c
disconnect_children a (suc rounds) index c = elim (get_elem? c.table index) [
  | none ↦ crashed
  | some entry ↦ (do
    c' ← (if is_child_of a entry then (do (d, _) ← disconnect index c; returned d) else returned c)
    disconnect_children a rounds (index + 1) c')
]

-- `_server_on_error` at the end of a client's stream: the connections to servers that this client is
-- the parent of are closed, and the client leaves the list. One that is not in the list is only freed.
unfoldable pub client_gone : ℕ → Server → Client → Call (Server × Client)
unfolding remove_client
client_gone a s c =
    lock s.locked
    >> (if is_listed a s.head
        then (do c' ← disconnect_children a 64 0 c; returned (remove_client a s, c'))
        else returned (s, c))

-- `dynpm_send_buffer_to_client_connection`
unfoldable pub send_buffer_to_client : Buffer → ClientConnection → Call ClientConnection
send_buffer_to_client b o =
    lock o.messages_locked >> returned (record o { messages = enqueue b o.messages })

-- `dynpm_send_message_to_client_connection` on a connection: what becomes of it, and whether the call
-- returned 0. The error paths go to the end of the function with `messages_mutex` held.
unfoldable pub send_message_to_client :
    Buffer → Header → Message → ClientConnection → Call (ClientConnection × Bool)
send_message_to_client memory h m o =
    lock o.messages_locked >> elim (server_case (of_code h.message_type) h m memory) [
      | ServerCase.refused ↦ returned (record o { messages_locked = true }, false)
      | ServerCase.unknown ↦ returned (record o { messages_locked = true }, false)
      | ServerCase.written outcome ↦ (do
        b ← of_outcome outcome
        returned (record o { messages = enqueue b o.messages }, true))
    ]
