-- ===== src/Network/Client/Locks.antt =====
-- The mutex of the client's table, and the count, after the calls that fail.
use libdynpm.Base.{
  Bool-cases, ℕ, ◌+◌, ◌-◌, ◌<◌, ◌≡◌, ◌⊎◌, inl, inr, refl, ◌∙◌, ap, true, false, Option, none, some,
  get_elem?, set, arith,
}
use libdynpm.Text.Chars.{Bytes}
use libdynpm.Text.Buffer.{Buffer}
use libdynpm.Protocol.Header.{Header}
use libdynpm.Network.Message.{Message}
use libdynpm.Network.Call.{returned, blocked}
use libdynpm.Network.Client.Table.{
  max_server_connections, ServerConnection, Client, find_free, Environment, ServerIndex, Connected,
  open_connection, new_connection, connect, disconnect, connection_at, send_buffer, send_message,
}
use libdynpm.Network.Client.Entries.{occupied, occupied-clear_null, find_free_lem}
use libdynpm.Network.Client.Laws.{IsClient, connect_open}

-- While the mutex is held, every call that takes it waits.
pub blocked_lem :
    (c : Client) (env : Environment) (host port : Bytes) (handler source i : ℕ) (parent : Option ℕ)
    (b memory : Buffer) (h : Header) (m : Message)
    → c.initialized ≡ true
    → c.locked ≡ true
    → (connect env host port handler source parent c ≡ blocked)
      × (disconnect i c ≡ blocked)
      × (send_buffer b i c ≡ blocked)
      × (send_message memory h m i c ≡ blocked)
unfolding connect disconnect send_buffer send_message connection_at
blocked_lem c env host port handler source i parent b memory h m ready held =
    (ground arith, ground arith, ground arith, ground arith)

-- One of the three calls of libevent that `connect` checks fails.
abbrev pub LacksBase : Environment → Type 0
LacksBase env = (env.evbase_made ≡ false) ⊎ (env.dns_made ≡ false) ⊎ (env.buf_made ≡ false)

open_lacking :
    (env : Environment) (source i : ℕ) (s : ServerConnection) (c : Client)
    → LacksBase env
    → (s' : ServerConnection) × (open_connection env source i s c
        ≡ returned (record {
          client = record c { table = set c.table i (some s'); locked = true };
          success = false;
          server_index = ServerIndex.at i;
        }))
unfolding open_connection
open_lacking env source i s c h = elim (Bool-cases env.evbase_made) [
  | inl made ↦ (record s { evbase = true }, ground arith)
  | inr missing ↦ (s, ground arith)
]

-- In a well-formed client with a null entry, if the event base, the DNS base or the buffer event cannot
-- be made, the connection fails with -1 and leaves the mutex of the table held. On the client that it
-- leaves, a further connection with any arguments and whatever the system does, a disconnection, the
-- sending of a buffer and the sending of a message, each at any index, wait for ever.
pub connect_leaves_lock :
    (env : Environment) (host port : Bytes) (handler source : ℕ) (parent : Option ℕ) (c : Client)
    (env' : Environment) (host' port' : Bytes) (handler' source' : ℕ) (parent' : Option ℕ) (i : ℕ)
    (b memory : Buffer) (h : Header) (m : Message)
    → IsClient c
    → occupied c.table < max_server_connections
    → LacksBase env
    → (r : Connected) × (connect env host port handler source parent c ≡ returned r)
      × (r.success ≡ false)
      × (connect env' host' port' handler' source' parent' r.client ≡ blocked)
      × (disconnect i r.client ≡ blocked)
      × (send_buffer b i r.client ≡ blocked)
      × (send_message memory h m i r.client ≡ blocked)
connect_leaves_lock env host port handler source parent c env' host' port' handler' source' parent'
      i b memory h m v room lacks =
    let (j, found, null, first) = find_free_lem c.table 0 (omega (arith, v.size)) in
    let place : find_free c.table 0 ≡ some j = found ∙ ap some (omega arith) in
    let (s', opened) =
      open_lacking env source j (new_connection host port handler parent j)
        (record c { count = c.count + 1 }) lacks in
    let left : Client = record c {
      table = set c.table j (some s');
      count = c.count + 1;
      locked = true;
    } in
    let (no_connect, no_disconnect, no_buffer, no_message) =
      blocked_lem left env' host' port' handler' source' i parent' b memory h m v.ready refl in
    (
      record { client = left; success = false; server_index = ServerIndex.at j },
      connect_open env host port handler source j parent c v.ready v.free
            (omega (arith, v.counted, room)) place
          ∙ opened,
      refl,
      no_connect,
      no_disconnect,
      no_buffer,
      no_message,
    )

-- A disconnection at a null entry of a well-formed client with some connection returns -1, and still
-- lowers the count: the count is then one less than the number of entries in use, and the client is no
-- longer well formed.
pub disconnect_null_miscounts :
    (c : Client) (i : ℕ)
    → IsClient c
    → get_elem? c.table i ≡ some none
    → 0 < occupied c.table
    → (c' : Client) × (disconnect i c ≡ returned (c', false))
      × (occupied c'.table ≡ occupied c.table)
      × (c'.count + 1 ≡ occupied c'.table)
      × ¬ IsClient c'
unfolding disconnect
disconnect_null_miscounts c i v e some_left =
    let c' : Client = record c { table = set c.table i none; count = c.count - 1 } in
    let pos : 0 < c.count = omega (arith, v.counted, some_left) in
    let same : occupied c'.table ≡ occupied c.table = occupied-clear_null c.table i e in
    (
      c',
      ground (arith, v.ready, v.free),
      same,
      omega (arith, v.counted, same, pos),
      (λ v'. omega (arith, v.counted, v'.counted, same, pos)),
    )
