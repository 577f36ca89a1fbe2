-- ===== src/Network/Server/Startup/Range.antt =====
-- What `dynpm_server_init_port_range` of src/network/server.c leaves.
use libdynpm.Base.{ℕ, ◌≡◌, true, false, ◌&&◌, ltb, [], ◌∷◌, not, some, ◌⊎◌}
use libdynpm.Network.Call.{Call}
use libdynpm.Network.Pool.{Pool, work_queue_init, work_queue_finalize}
use libdynpm.Network.Server.Startup.{
  Surroundings, Globals, Started, init_common, not_started, htons, with_socket,
}

-- The server after a start that goes on with the port `q`: the socket is open and its descriptor
-- kept, the address has the port, `*port` is set to it, the list is empty, its mutex free and the
-- handler set. The start succeeds if there is a worker and the accepting thread is made and named.
pub record GoesOn (env : Surroundings) (queue_threads handler fd q : ℕ) (g : Globals) (r : Started)
    : Type 0 where
  pub port : r.port ≡ some q
  pub server_socket : r.globals.server_socket ≡ some fd
  pub sockets : r.globals.sockets ≡ fd ∷ g.sockets
  pub sin_port : r.globals.sin_port ≡ some (htons q)
  pub head : r.globals.head ≡ []
  pub unlocked : r.globals.registration_locked ≡ false
  pub handles : r.globals.handler ≡ some handler
  pub success : r.success ≡ (not (ltb queue_threads 1) && (env.thread_made && env.thread_named))
  pub accepting : r.accepting ≡ (not (ltb queue_threads 1) && env.thread_made)
  pub pool :
      ((ltb queue_threads 1 ≡ true) × (r.globals.pool ≡ work_queue_finalize g.pool))
      ⊎ (work_queue_init queue_threads ≡ some r.globals.pool)

-- What `on_tried` gives where `bind` has accepted a port
abbrev accepted : Surroundings → ℕ → ℕ → Globals → ℕ → Started
accepted env queue_threads handler g q =
    record (init_common env queue_threads handler (record g { sin_port = some (htons q) })) {
      port = some q;
    }

-- The globals that `_dynpm_server_init_common` sets before the work queue
abbrev prepared : ℕ → Globals → Globals
prepared handler g = record g { head = []; registration_locked = false; handler = some handler }

-- The server after a start that ends behind the port `q` without one: the new socket stays open, its
-- descriptor and the port stay in the globals, and all else is as it was.
abbrev pub left_open : ℕ → ℕ → Globals → Started
left_open fd q g = not_started (record (with_socket fd g) { sin_port = some (htons q) })
