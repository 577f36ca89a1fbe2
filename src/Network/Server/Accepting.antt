-- ===== src/Network/Server/Accepting.antt =====
-- New connections in src/network/server.c: the accepting thread, its handler of events, and the
-- work units that it and the read callback give to the work queue.
use libdynpm.Base.{
  ℕ, ◌≡◌, refl, true, false, Bool, not, [], ◌∷◌, List, Option, none, some, if◌then◌else◌, ◌==◌,
  ==_iff,
}
use libdynpm.Text.Buffer.{Buffer}
use libdynpm.Text.Chars.{Bytes, same_text_refl}
use libdynpm.Network.Call.{Call, returned, stopped, crashed, ◌>>=◌}
use libdynpm.Network.Pool.{Pool, work_queue_add, add_unit, takes, queue_round}
use libdynpm.Network.Client.{Environment}
use libdynpm.Network.Client.Registering.{HoldsRegistration}
use libdynpm.Network.Server.Dispatch.{top_handler-HoldsRegistration}
use libdynpm.Network.Server.Registry.{
  Server, accept_connection, connection_setup, top_handler, register_client, find_client, find_from,
  compare_id_host,
}

-- A work unit: `_client_connection_setup` or `_dynpm_top_server_handler`, with its data.
pub data WorkUnit : Type 0 where
  setup : ℕ → WorkUnit
  message : ℕ → Buffer → WorkUnit

-- `function(data)` in `queue_thread`. That the thread of the connection cannot be created is only
-- logged.
unfoldable pub run_unit : (ℕ → Buffer → Server → Call Server) → WorkUnit → Server → Call Server
run_unit handler (setup a) s = connection_setup a s
run_unit handler (message a b) s = top_handler handler a b s

-- How the calls of `_client_connection_event_handler` end
pub record AcceptCalls : Type 0 where
  pub allocated : Bool
  pub accepted : Option ℕ
  pub flags_read : Bool
  pub flags_set : Bool
  pub evbase_made : Bool
  pub buf_made : Bool
  pub unit_allocated : Bool

-- `_client_connection_event_handler`, where `malloc` returns `a`: every failure ends the program.
unfoldable pub event_handler :
    AcceptCalls → ℕ → Server × Pool WorkUnit → Call (Server × Pool WorkUnit)
event_handler calls a (s, p) = if not calls.allocated then stopped else elim calls.accepted [
  | none ↦ stopped
  | some fd ↦
      if not calls.flags_read
      then stopped
      else if not calls.flags_set
      then stopped
      else if not calls.evbase_made
      then stopped
      else if not calls.buf_made
      then stopped
      else if not calls.unit_allocated
      then stopped
      else returned (accept_connection a fd s, work_queue_add (setup a) p)
]

-- The events that `event_base_dispatch` hands on, each with its `malloc`
unfoldable pub accept_all :
    List (AcceptCalls × ℕ) → Server × Pool WorkUnit → Call (Server × Pool WorkUnit)
accept_all [] st = returned st
accept_all ((calls, a) ∷ events) st = do st' ← event_handler calls a st; accept_all events st'

-- `_accept_client_connection_thread`: it ends at once if the flags of the socket cannot be set or the
-- event base cannot be made.
unfoldable pub accept_thread :
    Bool → Bool → List (AcceptCalls × ℕ) → Server × Pool WorkUnit → Call (Server × Pool WorkUnit)
unfolding accept_all
accept_thread flags_set evbase_made events st =
    if not flags_set
    then returned st
    else if not evbase_made
    then returned st
    else accept_all events st

-- Every call succeeds, and the socket is `fd`.
pub record Accepts (calls : AcceptCalls) (fd : ℕ) : Type 0 where
  pub allocated : calls.allocated ≡ true
  pub accepted : calls.accepted ≡ some fd
  pub flags_read : calls.flags_read ≡ true
  pub flags_set : calls.flags_set ≡ true
  pub evbase_made : calls.evbase_made ≡ true
  pub buf_made : calls.buf_made ≡ true
  pub unit_allocated : calls.unit_allocated ≡ true

event_handler_lem :
    (calls : AcceptCalls) (fd a : ℕ) (s : Server) (p : Pool WorkUnit)
    → Accepts calls fd
    → event_handler calls a (s, p) ≡ returned (accept_connection a fd s, work_queue_add (setup a) p)
unfolding event_handler
event_handler_lem calls fd a s p v =
    rw
      (
        v.allocated, v.accepted, v.flags_read, v.flags_set, v.evbase_made, v.buf_made,
        v.unit_allocated,
      )
      refl

-- The server with a new connection at the head of its list
abbrev pub with_new : ℕ → ℕ → Server → Server
with_new a fd s = record (accept_connection a fd s) { head = a ∷ s.head }

setup_taken :
    (i a : ℕ) (p : Pool WorkUnit)
    → p.work_units ≡ []
    → p.terminate i ≡ false
    → queue_round i (work_queue_add (setup a) p) ≡ (p, takes (setup a))
unfolding queue_round work_queue_add add_unit
setup_taken i a p none_waits runs = rw (runs, none_waits) refl

setup_lem :
    (a fd : ℕ) (s : Server)
    → s.locked ≡ false
    → connection_setup a (accept_connection a fd s) ≡ returned (with_new a fd s)
unfolding connection_setup accept_connection
setup_lem a fd s free = rw free refl

same_address : (a : ℕ) → (a == a) ≡ true
same_address a = (==_iff a a).1 refl

unregistered_lem :
    (a fd : ℕ) (s : Server) (host : Bytes) (pid : ℕ)
    → find_client host pid (with_new a fd s) ≡ crashed
unfolding find_client find_from compare_id_host accept_connection
unregistered_lem a fd s host pid = rw (same_address a) refl

registered_lem :
    (a fd : ℕ) (s : Server) (env : Environment)
    → find_client env.hostname env.pid
        (register_client a (record { pid = env.pid; hostname = env.hostname }) (with_new a fd s))
      ≡ returned (some a)
unfolding find_client find_from compare_id_host register_client accept_connection
registered_lem a fd s env =
    rw (same_address a, same_address env.pid, same_text_refl env.hostname) refl

-- A connection is accepted by a server whose registration mutex is free and whose work queue is
-- empty, where every call of the handler succeeds. A worker that is not told to end takes the
-- work unit of the connection, which puts it at the head of the list. On the server that this
-- leaves, a search for any host and process id reads memory that was never assigned. The top
-- handler with a message that holds a registration, on that server and whatever the program's own
-- handler is, leaves a server on which a search for the host and the process id in it returns this
-- connection, whatever the state of the others.
pub accepted_is_found :
    (calls : AcceptCalls) (fd a i source : ℕ) (s : Server) (p : Pool WorkUnit)
    (own : ℕ → Buffer → Server → Call Server) (env : Environment) (b : Buffer)
    → Accepts calls fd
    → s.locked ≡ false
    → p.work_units ≡ []
    → p.terminate i ≡ false
    → HoldsRegistration source env b
    → (s₁ : Server) × (s₂ : Server) × (s₃ : Server) × (p₁ : Pool WorkUnit) × (event_handler calls a
          (s, p)
        ≡ returned (s₁, p₁))
      × (queue_round i p₁ ≡ (p, takes (setup a)))
      × (run_unit own (setup a) s₁ ≡ returned s₂)
      × (s₂.head ≡ a ∷ s.head)
      × ((host : Bytes) (pid : ℕ) → find_client host pid s₂ ≡ crashed)
      × (run_unit own (message a b) s₂ ≡ returned s₃)
      × (find_client env.hostname env.pid s₃ ≡ returned (some a))
unfolding run_unit
accepted_is_found calls fd a i source s p own env b v free none_waits runs holds = (
  accept_connection a fd s,
  with_new a fd s,
  register_client a (record { pid = env.pid; hostname = env.hostname }) (with_new a fd s),
  work_queue_add (setup a) p,
  event_handler_lem calls fd a s p v,
  setup_taken i a p none_waits runs,
  setup_lem a fd s free,
  refl,
  (λ host pid. unregistered_lem a fd s host pid),
  top_handler-HoldsRegistration own source env b a (with_new a fd s) holds,
  registered_lem a fd s env,
)
