-- ===== src/Network/Server/Startup.antt =====
-- The start of a server on a port, or on the first free port of a range, and its end
-- (src/network/server.c).
use libdynpm.Base.{
  ℕ, zero, suc, ◌+◌, ◌-◌, ◌*◌, ◌%◌, ◌^◌, true, false, Bool, [], ◌∷◌, List, Option, none, some,
  if◌then◌else◌, ◌&&◌, ◌==◌,
}
use libdynpm.Network.Call.{Call, returned, crashed}
use libdynpm.Network.Pool.{Pool, work_queue_init, work_queue_finalize, contains}
pub mod Ports
pub mod Range

-- What `bind` does on a port: it returns 0, or it fails with `EADDRINUSE`, or with another error.
pub data Bind : Type 0 where
  bound : Bind
  in_use : Bind
  refused : Bind

-- How the calls of the system end: the descriptor that `socket` returns, if it returns one, and what
-- `bind` does on an address with a port.
pub record Surroundings : Type 0 where
  pub socket : Option ℕ
  pub bind : ℕ → Bind
  pub thread_made : Bool
  pub thread_named : Bool

-- The globals: `server_socket`, with `none` for -1; `serv_addr`, of which only the port varies,
-- with `none` before it is first set; `dynpm_server_handler_function`, as a number; `head`;
-- `registration_mutex`; and the work queue, by the addresses of its units. `sockets` are the
-- descriptors that are open.
pub record Globals : Type 0 where
  pub server_socket : Option ℕ
  pub sockets : List ℕ
  pub sin_port : Option ℕ
  pub handler : Option ℕ
  pub head : List ℕ
  pub registration_locked : Bool
  pub pool : Pool ℕ

-- The globals after a call, whether it returned 0, whether the accepting thread runs, and what
-- `*port` is set to, if it is.
pub record Started : Type 0 where
  pub globals : Globals
  pub success : Bool
  pub accepting : Bool
  pub port : Option ℕ

-- A return of -1 with no thread, and `*port` not set
abbrev pub not_started : Globals → Started
not_started g = record { globals = g; success = false; accepting = false; port = none }

-- `_dynpm_server_init_common`
unfoldable pub init_common : Surroundings → ℕ → ℕ → Globals → Started
init_common env queue_threads handler g =
    let g' = record g { head = []; registration_locked = false; handler = some handler } in
    elim (work_queue_init queue_threads) [
      | none ↦ not_started (record g' { pool = work_queue_finalize g.pool })
      | some pool ↦ record {
        globals = record g' { pool = pool };
        success = env.thread_made && env.thread_named;
        accepting = env.thread_made;
        port = none;
      }
    ]

-- `htons`, up to the order of the two bytes
abbrev pub htons : ℕ → ℕ
htons port = port % 2 ^ 16

-- What `bind` does once `htons(port)` is in the address
abbrev pub bind_port : Surroundings → ℕ → Bind
bind_port env port = env.bind (htons port)

-- The globals with a new socket
abbrev pub with_socket : ℕ → Globals → Globals
with_socket fd g = record g { server_socket = some fd; sockets = fd ∷ g.sockets }

-- `dynpm_server_init`
unfoldable pub server_init : Surroundings → ℕ → ℕ → ℕ → Globals → Started
unfolding init_common
server_init env port queue_threads handler g = elim env.socket [
  | none ↦ not_started (record g { server_socket = none })
  | some fd ↦
      let g' = record (with_socket fd g) { sin_port = some (htons port) } in
      elim (bind_port env port) [
        | bound ↦ init_common env queue_threads handler g'
        | _ ↦ not_started g'
      ]
]

-- The loop of `dynpm_server_init_port_range`, with the rounds left, `try_port`, `error_code`, which
-- has no value before the first round, and the port in `serv_addr`: the last `error_code`,
-- `try_port` and port in `serv_addr`.
unfoldable pub try_ports : (ℕ → Bind) → ℕ → ℕ → Option Bind → ℕ → Option Bind × ℕ × ℕ
try_ports bind zero try_port error_code sin_port = (error_code, try_port, sin_port)
try_ports bind (suc rounds) try_port error_code sin_port = elim (bind try_port) [
  | in_use ↦ try_ports bind rounds (try_port + 1) (some in_use) (htons try_port)
  | other ↦ (some other, try_port, htons try_port)
]

abbrev pub on_tried : Surroundings → ℕ → ℕ → Globals → Option Bind × ℕ × ℕ → Call Started
on_tried env queue_threads handler g (none, port, sin_port) = crashed
on_tried env queue_threads handler g (some bound, port, sin_port) =
    returned
      (record (init_common env queue_threads handler (record g { sin_port = some sin_port })) {
        port = some port;
      })
on_tried env queue_threads handler g (some _, port, sin_port) =
    returned (not_started (record g { sin_port = some sin_port }))

-- `dynpm_server_init_port_range`; an `error_code` with no value is read as indeterminate memory. The
-- `memset` with the character 0 leaves the port 48 * 257 in `serv_addr`.
unfoldable pub server_init_port_range : Surroundings → ℕ → ℕ → ℕ → ℕ → Globals → Call Started
unfolding try_ports
server_init_port_range env min_port max_port queue_threads handler g = elim env.socket [
  | none ↦ returned (not_started (record g { server_socket = none }))
  | some fd ↦
      on_tried env queue_threads handler (with_socket fd g)
        (try_ports (bind_port env) (max_port + 1 - min_port) min_port none (48 * 257))
]

-- The descriptors without one that is closed
unfoldable pub close_socket : ℕ → List ℕ → List ℕ
close_socket fd [] = []
close_socket fd (d ∷ sockets) =
    let rest = d ∷ close_socket fd sockets in if d == fd then sockets else rest

-- `dynpm_server_finalize`, and whether it returned 0. The variable keeps the descriptor.
unfoldable pub server_finalize : Globals → Globals × Bool
unfolding close_socket
server_finalize g = elim g.server_socket [
  | none ↦ (g, false)
  | some fd ↦
      if contains fd g.sockets
      then (record g { sockets = close_socket fd g.sockets }, true)
      else (g, false)
]
