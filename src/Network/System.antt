-- ===== src/Network/System.antt =====
-- A client and its server as one system: the queue of outgoing messages (src/network/client.c), the
-- bytes on the connection, the read callback with its static count (src/network/server.c), and the
-- work queue with its workers (src/network/queue.c), each operation running as a whole, in any
-- order.
use libdynpm.Base.{ℕ, ◌≡◌, true, [], ◌∷◌, ◌++◌, List, some}
use libdynpm.Text.Chars.{Bytes}
use libdynpm.Text.Outcome.{done}
use libdynpm.Text.Buffer.{Buffer}
use libdynpm.Protocol.Frame.{IsMessageBuffer}
use libdynpm.Network.Queue.{enqueue, progress}
use libdynpm.Network.Receive.{concat, server_on_read}
use libdynpm.Network.Receive.Blocks.{IsAligned}
use libdynpm.Network.Pool.{
  Pool, work_queue_init, work_queue_add, Round, leaves, sleeps, takes, queue_round,
}
pub mod Conservation
pub mod Progress

-- The state, with the messages sent so far and those that workers have taken.
pub record System : Type 0 where
  pub messages : List Buffer
  pub wire : Bytes
  pub message_bytes_read : ℕ
  pub pool : Pool Buffer
  pub sent : List Buffer
  pub handled : List Buffer

-- `_dynpm_enqueue_send_buffer`
unfoldable pub on_send : Buffer → System → System
on_send b s = record s { messages = enqueue b s.messages; sent = s.sent ++ b ∷ [] }

-- `_client_on_write`, where the write succeeds
unfoldable pub on_write : System → System
on_write s =
    let o = progress true (record { messages = s.messages; written = [] }) in
    record s { messages = o.messages; wire = s.wire ++ concat o.written }

-- The calls of `dynpm_work_queue_add` in the loop of `_server_on_read`
unfoldable pub add_all : List Buffer → Pool Buffer → Pool Buffer
add_all [] p = p
add_all (m ∷ messages) p = add_all messages (work_queue_add m p)

-- The end of `_server_on_read`, which has left the bytes `rest`
unfoldable pub on_read : List Buffer → ℕ → Bytes → System → System
unfolding add_all
on_read messages left rest s = record s {
  wire = rest;
  message_bytes_read = left;
  pool = add_all messages s.pool;
}

abbrev pub after_round : Pool Buffer × Round Buffer → System → System
after_round (p, takes m) s = record s { pool = p; handled = s.handled ++ m ∷ [] }
after_round (p, _) s = record s { pool = p }

-- `queue_thread` of the worker `i`, with the mutex held
unfoldable pub on_work : ℕ → System → System
on_work i s = after_round (queue_round i s.pool) s

-- One operation. The read callback gets bytes from the front, in chunks that do not cross the end of a
-- message and the last of which ends with one.
pub data Step : System → System → Type 0 where
  sends : {s : System} (b : Buffer) → IsMessageBuffer b → Step s (on_send b s)
  writes : {s : System} → Step s (on_write s)
  reads :
      {s : System} (fresh : ℕ → Buffer) (chunks : List Bytes) (rest : Bytes)
      (messages : List Buffer) (left : ℕ)
      → ((k : ℕ) → IsMessageBuffer (fresh k))
      → s.wire ≡ concat chunks ++ rest
      → IsAligned 0 chunks
      → server_on_read fresh chunks s.message_bytes_read ≡ done (messages, left)
      → Step s (on_read messages left rest s)
  works : {s : System} (i : ℕ) → Step s (on_work i s)

-- Sequences of operations
pub data Steps : System → System → Type 0 where
  stay : {s : System} → Steps s s
  next : {s t u : System} → Step s t → Steps t u → Steps s u

-- The system after `dynpm_work_queue_init`, before any message
abbrev pub initial : Pool Buffer → System
initial p = record {
  messages = [];
  wire = [];
  message_bytes_read = 0;
  pool = p;
  sent = [];
  handled = [];
}
