-- ===== src/Network/Client/Thread.antt =====
-- `_server_event_connection_thread` of src/network/client.c: the thread of a connection to a server.
use libdynpm.Base.{
  ℕ, zero, suc, ◌≤◌, ◌≡◌, ◌∙◌, refl, ap, sym, true, false, Bool, [], ◌∷◌, ◌++◌, List, Option, none,
  some, length, replicate, append-nil, append_assoc, arith,
}
use libdynpm.Text.Buffer.{Buffer}
use libdynpm.Memory.{Heap}
use libdynpm.Memory.Blocks.{AreBlocks, OnlyFreed, without, without-OnlyFreed}
use libdynpm.Network.Call.{Call, returned, ◌>>=◌, of_outcome}
use libdynpm.Network.Queue.{flush}
use libdynpm.Network.Client.Table.{ServerConnection}
use libdynpm.Network.Client.Callbacks.{Line, dispatch, client_send_progress, client_write_head}
use libdynpm.Network.Client.Release.{free_connection, free_connection_lem}

-- `_server_event_connection_thread` at the address `a`, which is 0 for a null connection
unfoldable pub connection_thread : List Bool → ℕ → Option Line → Heap → Call (Option Line × Heap)
connection_thread rounds a none h = returned (none, h)
connection_thread rounds a (some l) h = do
  left ← dispatch rounds (some (record l { timers = suc l.timers }))
  h' ← of_outcome (free_connection a h)
  returned (left, h')

-- A connection with these messages, whose mutex is free
abbrev line : ServerConnection → ℕ → List Buffer → List Buffer → Line
line s timers ms written = record {
  connection = record s { messages = ms };
  mutex_locked = false;
  written = written;
  timers = timers;
}

dispatch_lem :
    (n : ℕ) (ms written : List Buffer) (s : ServerConnection) (k : ℕ)
    → length ms ≤ n
    → dispatch (replicate n true) (some (line s (suc k) ms written))
      ≡ returned (some (line s (suc k) [] (written ++ ms)))
unfolding dispatch client_send_progress client_write_head flush
dispatch_lem zero [] written s k h =
    ap (λ ws. returned (some (line s (suc k) [] ws))) (sym (append-nil written))
dispatch_lem zero (m ∷ ms) written s k h = absurd (omega arith)
dispatch_lem (suc n) [] written s k h = dispatch_lem n [] written s k (omega arith)
dispatch_lem (suc n) (m ∷ ms) written s k h =
    dispatch_lem n ms (written ++ m ∷ []) s k (omega arith)
    ∙ ap (λ ws. returned (some (line s (suc k) [] ws))) (append_assoc written (m ∷ []) ms)

-- The thread of a connection whose mutexes stay free, at an address where the structure, its host
-- and its port are blocks of their own (or `NULL`), until the loop is left after at least as many
-- rounds of the timer as messages wait, all of whose writes succeed: every message is written, in
-- order, no free is wrong, and exactly the host, the port and the structure are freed.
pub connection_thread_lem :
    (n a host port : ℕ) (l : Line) (h : Heap)
    → l.mutex_locked ≡ false
    → length l.connection.messages ≤ n
    → h a ≡ some (host ∷ port ∷ [])
    → AreBlocks (host ∷ port ∷ a ∷ []) h
    → (l' : Line) × (h' : Heap) × (connection_thread (replicate n true) a (some l) h
        ≡ returned (some l', h'))
      × (l'.connection.messages ≡ [])
      × (l'.written ≡ l.written ++ l.connection.messages)
      × OnlyFreed (host ∷ port ∷ a ∷ []) h h'
unfolding connection_thread
connection_thread_lem n a host port l h free enough e blocks = (
  line l.connection (suc l.timers) [] (l.written ++ l.connection.messages),
  without (host ∷ port ∷ a ∷ []) h,
  rw
      (
        free,
        dispatch_lem n l.connection.messages l.written l.connection l.timers enough,
        free_connection_lem a host port h e blocks,
      )
      refl,
  refl,
  refl,
  without-OnlyFreed (host ∷ port ∷ a ∷ []) h,
)
