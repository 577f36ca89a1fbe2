-- ===== src/Network/Receive.antt =====
-- The read callbacks: `_server_on_read` of src/network/server.c, with the byte count that it keeps in a
-- static variable, and `_client_on_read` of src/network/client.c. What `bufferevent_read` returns, one
-- call after the other until it returns 0, is a list of chunks.
use libdynpm.Base.{
  ℕ, ◌+◌, ◌≡◌, true, false, Bool, [], ◌∷◌, ◌++◌, List, ltb, ◌==◌, length, if◌then◌else◌,
}
use libdynpm.Text.Chars.{Bytes}
use libdynpm.Text.Outcome.{Outcome, done, fault, or_fault, ◌>>=◌}
use libdynpm.Text.Buffer.{Buffer, write}
use libdynpm.Protocol.Frame.{max_message_size}
pub mod Blocks
pub mod Partial

-- All bytes of the chunks
abbrev pub concat : List Bytes → Bytes
concat [] = []
concat (c ∷ chunks) = c ++ concat chunks

-- The loop of `_server_on_read`: the messages that are given to the work queue, and the count at
-- the end. `fresh` is what the calls of `malloc` return, one after the other from `k` on.
unfoldable pub server_read_loop :
    (ℕ → Buffer) → ℕ → List Bytes → Buffer → ℕ → Outcome (List Buffer × ℕ)
server_read_loop fresh k [] read_buffer message_bytes_read = done ([], message_bytes_read)
server_read_loop fresh k (c ∷ chunks) read_buffer message_bytes_read = do
  filled ← or_fault (write message_bytes_read c read_buffer)
  elim (ltb (message_bytes_read + length c) max_message_size) [
    | true ↦ server_read_loop fresh k chunks filled (message_bytes_read + length c)
    | false ↦ (do
      (messages, left) ← server_read_loop fresh (k + 1) chunks (fresh (k + 1)) 0
      done (filled ∷ messages, left))
  ]

-- `_server_on_read`, with the value that the static count has
unfoldable pub server_on_read : (ℕ → Buffer) → List Bytes → ℕ → Outcome (List Buffer × ℕ)
unfolding server_read_loop
server_on_read fresh chunks message_bytes_read =
    server_read_loop fresh 0 chunks (fresh 0) message_bytes_read

-- One call of `_server_on_read`: the address of the connection, the memory and the chunks
pub record Callback : Type 0 where
  pub connection : ℕ
  pub fresh : ℕ → Buffer
  pub chunks : List Bytes

abbrev pub tag : ℕ → List Buffer → List (ℕ × Buffer)
tag a [] = []
tag a (m ∷ messages) = (a, m) ∷ tag a messages

-- The callbacks of all connections in order, each whole: the messages given to the work queue with
-- their connections. The static count goes from one to the next, whatever their connections are.
unfoldable pub server_reads : List Callback → ℕ → Outcome (List (ℕ × Buffer) × ℕ)
server_reads [] message_bytes_read = done ([], message_bytes_read)
server_reads (r ∷ callbacks) message_bytes_read = do
  (messages, left) ← server_on_read r.fresh r.chunks message_bytes_read
  (others, last) ← server_reads callbacks left
  done (tag r.connection messages ++ others, last)

-- What a call of `_client_on_read` comes to.
pub data Reception : Type 0 where
  -- `exit(-1)`
  exits : Reception
  -- the handler is called with this buffer
  handles : Buffer → Reception
  -- a write past the end of the buffer
  overruns : Reception

abbrev pub of_write : Outcome Buffer → Reception
of_write (done b) = handles b
of_write _ = overruns

-- The loop of `_client_on_read`
unfoldable pub client_read_loop : List Bytes → Buffer → ℕ → Outcome Buffer
client_read_loop [] read_buffer message_bytes_read = done read_buffer
client_read_loop (c ∷ chunks) read_buffer message_bytes_read = do
  filled ← or_fault (write message_bytes_read c read_buffer)
  let now = message_bytes_read + length c
  elim (now == max_message_size) [ true ↦ done filled | false ↦ client_read_loop chunks filled now ]

-- `_client_on_read`, where the connection's `mutex` is free, as in `_server_on_read`; `total_bytes`
-- is what `evbuffer_get_length` returns.
unfoldable pub client_on_read : Buffer → ℕ → List Bytes → Reception
unfolding client_read_loop
client_on_read fresh total_bytes chunks =
    if total_bytes == max_message_size then of_write (client_read_loop chunks fresh 0) else exits
