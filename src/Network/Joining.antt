-- ===== src/Network/Joining.antt =====
-- From a client's `dynpm_connect_to_server` to the list of the server's connections.
use libdynpm.Base.{
  ℕ, ◌*◌, ◌<◌, ◌≡◌, ◌≢◌, refl, true, [], ◌∷◌, List, All, Option, some, get_elem?, length, ◌==◌,
  Bool-cases, inl, inr, arith, get_elem?-set_self, lt_of_get_elem?,
}
use libdynpm.Text.Chars.{Bytes}
use libdynpm.Text.Outcome.{done}
use libdynpm.Text.Buffer.{Buffer}
use libdynpm.Protocol.Frame.{max_message_size, IsMessageBuffer}
use libdynpm.Protocol.Connection.{RegisterConnectionMsg}
use libdynpm.Network.Call.{Call, returned}
use libdynpm.Network.Queue.{run}
use libdynpm.Network.Queue.Draining.{drains}
use libdynpm.Network.Receive.{concat, server_on_read}
use libdynpm.Network.Receive.Blocks.{IsAligned}
use libdynpm.Network.Wire.{wire_lem}
use libdynpm.Network.Client.{Client, Environment, ServerIndex, connect, max_server_connections}
use libdynpm.Network.Client.Entries.{occupied}
use libdynpm.Network.Client.Laws.{IsClient, client_with, connect_lem}
use libdynpm.Network.Client.Registering.{IsWorking, connected_entry}
use libdynpm.Network.Server.{Server, register_client, find_client, is_listed, top_handler}
use libdynpm.Network.Server.Dispatch.{top_handler-HoldsRegistration}
use libdynpm.Network.Server.Lookup.{HasRegistered, IsRegistered, find-register}

-- After a registration every listed connection has registered, if every other one had.
every_registered :
    (s : Server) (a : ℕ) (m : RegisterConnectionMsg) (addresses : List ℕ)
    → All (λ b. b ≢ a → HasRegistered (s.objects b)) addresses
    → All (λ b. HasRegistered ((register_client a m s).objects b)) addresses
unfolding register_client
every_registered s a m [] others = tt
every_registered s a m (b ∷ addresses) others = (
  elim (Bool-cases (a == b)) [
    | inl same ↦ rw same (m.pid, m.hostname, refl, refl)
    | inr differ ↦ rw differ (others.0 (λ e. ground arith))
  ],
  every_registered s a m addresses others.1,
)

-- A connection of a well-formed client with fewer than 64 connections that meets no error, to a
-- server that has the connection at `a` in its list, where every other listed connection has
-- registered. The call returns 0 with the index of an entry that holds one message; one write
-- callback and a network that keeps the bytes in order and delivers whole messages in chunks that
-- do not cross the end of one bring that message, and no other, to the server's work queue; the
-- server's top handler registers the connection with it, whatever the program's own handler is; and
-- on the server that the handler leaves, a search for the host and the process id of the client
-- returns a listed connection of that host and process id. The blocks of the read callback have the
-- message size, and its static count is 0.
pub find_client-connect :
    (network : Bytes → List Bytes) (fresh : ℕ → Buffer) (env : Environment) (host port : Bytes)
    (handler source : ℕ) (parent : Option ℕ) (c : Client) (own : ℕ → Buffer → Server → Call Server)
    (a : ℕ) (s : Server)
    → ((w : Bytes) → concat (network w) ≡ w)
    → ((w : Bytes) (n : ℕ) → length w ≡ n * max_message_size → IsAligned 0 (network w))
    → ((k : ℕ) → IsMessageBuffer (fresh k))
    → IsClient c
    → IsWorking source env
    → occupied c.table < max_server_connections
    → is_listed a s.head ≡ true
    → All (λ b. b ≢ a → HasRegistered (s.objects b)) s.head
    → (i : ℕ) × (b : Buffer) × (c' : Client) × (s' : Server) × (found : ℕ) × (connect env host port
          handler source parent c
        ≡ returned (record { client = c'; success = true; server_index = ServerIndex.at i }))
      × (get_elem? c'.table i ≡ some (some (connected_entry host port handler parent i b)))
      × (server_on_read fresh
            (network (concat (run (drains 1) (record { messages = b ∷ []; written = [] })).written))
            0
          ≡ done (b ∷ [], 0))
      × (top_handler own a b s ≡ returned s')
      × (find_client env.hostname env.pid s' ≡ returned (some found))
      × (is_listed found s'.head ≡ true)
      × IsRegistered (s'.objects found) env.hostname env.pid
find_client-connect network fresh env host port handler source parent c own a s keeps whole sizes v
      w room listed others =
    let (i, b, made, null, first, holds, v') =
      connect_lem env host port handler source parent c v w room in
    let m : RegisterConnectionMsg = record { pid = env.pid; hostname = env.hostname } in
    let (found, search_ends, is_in, matches) =
      find-register s a m listed (every_registered s a m s.head others) in
    let entry = connected_entry host port handler parent i b in
    (
      i,
      b,
      client_with c i entry,
      register_client a m s,
      found,
      made,
      get_elem?-set_self c.table i (some entry) (lt_of_get_elem? c.table i null),
      wire_lem network fresh keeps whole sizes (b ∷ []) (holds.size, tt),
      top_handler-HoldsRegistration own source env b a s holds,
      search_ends,
      (unfold register_client in is_in),
      matches,
    )
