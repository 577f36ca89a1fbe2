-- ===== src/Network/Client/Callbacks.antt =====
-- The write callbacks of src/network/client.c, the event loop of a connection, and the sending of a
-- header on it.
use libdynpm.Base.{ℕ, zero, suc, false, Bool, [], ◌∷◌, List, Option, none, some}
use libdynpm.Text.Buffer.{Buffer}
use libdynpm.Protocol.Header.{MessageType}
use libdynpm.Network.Call.{Call, returned, crashed, ◌>>=◌, ◌>>◌, lock}
use libdynpm.Network.Queue.{flush}
use libdynpm.Network.Client.Table.{Client, ServerConnection, send_header}

-- A connection with its `mutex`, what `bufferevent_write` was given on it, and the events added that
-- call `_client_to_server_send_progress`.
pub record Line : Type 0 where
  pub connection : ServerConnection
  pub mutex_locked : Bool
  pub written : List Buffer
  pub timers : ℕ

-- The body that the two callbacks share; `write_ok` says whether `bufferevent_write` succeeds.
unfoldable pub client_write_head : Bool → Line → Line
client_write_head write_ok l =
    let o = flush write_ok l.connection.messages l.written in
    record l { connection = record l.connection { messages = o.messages }; written = o.written }

-- `_client_on_write`, which reads through a null connection.
unfoldable pub client_on_write : Bool → Option Line → Call Line
unfolding client_write_head
client_on_write write_ok none = crashed
client_on_write write_ok (some l) = lock l.mutex_locked >> returned (client_write_head write_ok l)

-- `_client_to_server_send_progress`, with `server_connections_mutex`
unfoldable pub client_send_progress : Bool → Bool → Option Line → Call (Option Line)
unfolding client_write_head
client_send_progress write_ok connections_locked none = lock connections_locked >> returned none
client_send_progress write_ok connections_locked (some l) =
    lock connections_locked
    >> (lock l.mutex_locked
        >> returned (some (record (client_write_head write_ok l) { timers = suc l.timers })))

-- `event_base_dispatch` on the events that the thread and the callback add: each call adds the next
-- one. The list says which writes succeed until the loop is left.
unfoldable pub dispatch : List Bool → Option Line → Call (Option Line)
unfolding client_send_progress
dispatch [] line = returned line
dispatch (write_ok ∷ rounds) none = returned none
dispatch (write_ok ∷ rounds) (some l) = elim l.timers [
  | zero ↦ returned (some l)
  | suc timers ↦ (do
    l' ← client_send_progress write_ok false (some (record l { timers = timers }))
    dispatch rounds l')
]

-- `dynpm_send_header_to_server_connection`, which returns no value
unfoldable pub send_header_on : Buffer → ℕ → MessageType → ServerConnection → Client → Call Client
send_header_on memory source type s c = do
  (c', sent) ← send_header memory source type s.index c
  returned c'
