-- ===== src/Network/Server/Thread.antt =====
-- `_client_connection_thread` of src/network/server.c: the thread of a client's connection.
use libdynpm.Base.{
  ℕ, zero, suc, ◌≤◌, ◌≡◌, ◌∙◌, ap, sym, true, false, [], ◌∷◌, ◌++◌, List, some, length, replicate,
  append-nil, append_assoc, arith,
}
use libdynpm.Text.Buffer.{Buffer}
use libdynpm.Network.Call.{returned}
use libdynpm.Network.Queue.{flush}
use libdynpm.Network.Server.Registry.{ClientConnection}
use libdynpm.Network.Server.Callbacks.{
  Link, write_head, send_progress, dispatch_events, client_connection_thread,
}

-- A connection with these messages, whose mutex is free
abbrev link : ClientConnection → List Buffer → List Buffer → Link
link o ms written = record {
  connection = record o { messages = ms };
  mutex_locked = false;
  written = written;
}

dispatch_events_lem :
    (n : ℕ) (ms written : List Buffer) (o : ClientConnection)
    → length ms ≤ n
    → dispatch_events (replicate n true) (some (link o ms written))
      ≡ returned (some (link o [] (written ++ ms)))
unfolding dispatch_events send_progress write_head flush
dispatch_events_lem zero [] written o h =
    ap (λ ws. returned (some (link o [] ws))) (sym (append-nil written))
dispatch_events_lem zero (m ∷ ms) written o h = absurd (omega arith)
dispatch_events_lem (suc n) [] written o h = dispatch_events_lem n [] written o (omega arith)
dispatch_events_lem (suc n) (m ∷ ms) written o h =
    dispatch_events_lem n ms (written ++ m ∷ []) o (omega arith)
    ∙ ap (λ ws. returned (some (link o [] ws))) (append_assoc written (m ∷ []) ms)

-- The thread of a connection whose mutexes stay free, with at least as many rounds of the timer as
-- messages wait, all of whose writes succeed, writes every message, in order.
pub client_connection_thread_lem :
    (n : ℕ) (l : Link)
    → l.mutex_locked ≡ false
    → length l.connection.messages ≤ n
    → client_connection_thread (replicate n true) (some l)
      ≡ returned (some (link l.connection [] (l.written ++ l.connection.messages)))
unfolding client_connection_thread
client_connection_thread_lem n l free enough =
    rw free (dispatch_events_lem n l.connection.messages l.written l.connection enough)
