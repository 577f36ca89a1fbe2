-- ===== src/Network/Server/Callbacks.antt =====
-- The write callbacks of src/network/server.c, the lock on the list of connections, and the sending
-- of a header.
use libdynpm.Base.{[], ◌∷◌, true, false, Bool, List, Option, none, some, ℕ}
use libdynpm.Text.Buffer.{Buffer}
use libdynpm.Protocol.Header.{MessageType, code, serialize_header}
use libdynpm.Network.Call.{Call, returned, stopped, ◌>>=◌, ◌>>◌, lock, of_outcome}
use libdynpm.Network.Queue.{flush}
use libdynpm.Network.Server.Registry.{ClientConnection, Server, send_buffer_to_client}

-- A connection with its `mutex`, and what `bufferevent_write` was given on it.
pub record Link : Type 0 where
  pub connection : ClientConnection
  pub mutex_locked : Bool
  pub written : List Buffer

-- The body that the two callbacks share; `write_ok` says whether `bufferevent_write` succeeds.
unfoldable pub write_head : Bool → Link → Link
write_head write_ok l =
    let o = flush write_ok l.connection.messages l.written in
    record l { connection = record l.connection { messages = o.messages }; written = o.written }

-- `_server_on_write`; `none` is a null connection, on which it exits.
unfoldable pub server_on_write : Bool → Option Link → Call Link
unfolding write_head
server_on_write write_ok none = stopped
server_on_write write_ok (some l) = lock l.mutex_locked >> returned (write_head write_ok l)

-- `_server_to_client_send_progress`, with `registration_mutex`: the connection, and whether an event is
-- added that calls it again.
unfoldable pub send_progress : Bool → Bool → Option Link → Call (Option Link × Bool)
unfolding write_head
send_progress write_ok registration_locked none = lock registration_locked >> returned (none, false)
send_progress write_ok registration_locked (some l) =
    lock registration_locked
    >> (lock l.mutex_locked >> returned (some (write_head write_ok l), true))

-- `event_base_dispatch` on the event that the thread adds and those that the callback adds; the
-- list says which writes succeed until the loop is left.
unfoldable pub dispatch_events : List Bool → Option Link → Call (Option Link)
dispatch_events [] link = returned link
dispatch_events (write_ok ∷ rounds) link = do
  (link', again) ← send_progress write_ok false link
  elim again [ true ↦ dispatch_events rounds link' | false ↦ returned link' ]

-- `_client_connection_thread`; nothing is done on a null connection.
unfoldable pub client_connection_thread : List Bool → Option Link → Call (Option Link)
client_connection_thread rounds none = returned none
client_connection_thread rounds (some l) = dispatch_events rounds (some l)

-- `dynpm_lock_client_connections` and `dynpm_unlock_client_connections`
unfoldable pub lock_client_connections : Server → Call Server
lock_client_connections s = lock s.locked >> returned (record s { locked = true })

unfoldable pub unlock_client_connections : Server → Server
unlock_client_connections s = record s { locked = false }

-- `dynpm_send_header_to_client_connection`, with what its `malloc` returns. It returns no value.
unfoldable pub send_header_to_client :
    Buffer → ℕ → MessageType → ClientConnection → Call ClientConnection
send_header_to_client memory source type o = do
  b ←
      of_outcome
        (serialize_header (record { source_type = source; message_type = code type }) memory)
  send_buffer_to_client b o
