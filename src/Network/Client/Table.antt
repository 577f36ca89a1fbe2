-- ===== src/Network/Client/Table.antt =====
-- The state of the client and its operations.
use libdynpm.Base.{
  ℕ, ◌+◌, ◌-◌, ◌&&◌, true, false, Bool, not, [], ◌∷◌, List, Option, none, some, ltb, ◌==◌,
  if◌then◌else◌, get_elem?, set, replicate,
}
use libdynpm.Text.Chars.{Bytes}
use libdynpm.Text.Buffer.{Buffer}
use libdynpm.Protocol.Header.{Header, MessageType, of_code, code, serialize_header}
use libdynpm.Network.Call.{Call, returned, blocked, stopped, crashed, ◌>>=◌, ◌>>◌, lock, of_outcome}
use libdynpm.Network.Queue.{enqueue}
use libdynpm.Network.Message.{Message, client_case}

-- `MAX_SERVER_CONNECTIONS`
abbrev pub max_server_connections : ℕ
max_server_connections = 64

-- `dynpm_client_to_server_connection_t`; `evbase` says whether the event base exists, and
-- `parent_connection` is an address.
pub record ServerConnection : Type 0 where
  pub host : Bytes
  pub port : Bytes
  pub messages : List Buffer
  pub parent_connection : Option ℕ
  pub handler : ℕ
  pub evbase : Bool
  pub connected : Bool
  pub index : ℕ

-- The globals of the file. Before `dynpm_client_init` the count is -1; it is 0 here, since then only
-- the `assert` of `dynpm_disconnect_from_server` reads it, and fails for both. `locked` is
-- `server_connections_mutex`.
pub record Client : Type 0 where
  pub initialized : Bool
  pub table : List (Option ServerConnection)
  pub count : ℕ
  pub locked : Bool

abbrev pub empty_table : List (Option ServerConnection)
empty_table = replicate max_server_connections none

-- The globals when the program starts
abbrev pub fresh_client : Client
fresh_client = record { initialized = false; table = empty_table; count = 0; locked = false }

-- `dynpm_client_init`
unfoldable pub client_init : Client → Client
client_init c =
    if c.initialized
    then c
    else record { initialized = true; table = empty_table; count = 0; locked = false }

-- The loop that looks for a null entry, from `index` on.
unfoldable pub find_free : List (Option ServerConnection) → ℕ → Option ℕ
find_free [] index = none
find_free (none ∷ table) index = some index
find_free (some s ∷ table) index = find_free table (index + 1)

-- How the calls of the system and of libevent in `dynpm_connect_to_server` end: whether the event base,
-- the DNS base and the buffer event are made, the thread is created and named, and the server answers;
-- the process id, the name of the host, and what the memory of the message buffer holds.
pub record Environment : Type 0 where
  pub evbase_made : Bool
  pub dns_made : Bool
  pub buf_made : Bool
  pub thread_made : Bool
  pub thread_named : Bool
  pub connects : Bool
  pub pid : ℕ
  pub hostname : Bytes
  pub memory : Buffer

-- `*server_index` after a call of `dynpm_connect_to_server`
pub data ServerIndex : Type 0 where
  untouched : ServerIndex
  minus_one : ServerIndex
  at : ℕ → ServerIndex

-- The result of a call of `dynpm_connect_to_server`: whether it returned 0.
pub record Connected : Type 0 where
  pub client : Client
  pub success : Bool
  pub server_index : ServerIndex

-- `_dynpm_internal_send_message_to_server`, up to the lock of the connection's messages, which it
-- always frees: the connection, and whether it returned 0. `memory` is what the write buffer holds.
unfoldable pub send_on :
    Buffer → Header → Message → ServerConnection → Call (ServerConnection × Bool)
send_on memory h m s = elim (client_case (of_code h.message_type) h m memory) [
  | none ↦ returned (s, false)
  | some written ↦ do
    b ← of_outcome written
    returned (record s { messages = enqueue b s.messages }, true)
]

-- The message that registers a connection.
abbrev pub registration : ℕ → Environment → Header × Message
registration source env = (
  record { source_type = source; message_type = code MessageType.register_connection },
  Message.register_connection (record { pid = env.pid; hostname = env.hostname }),
)

-- `dynpm_connect_to_server` once the thread runs: it waits until the connection is made, and
-- registers it.
unfoldable pub register_with : Environment → ℕ → ℕ → ServerConnection → Client → Call Connected
register_with env source i s c = if not env.connects then blocked else (do
  let (h, m) = registration source env
  (s', sent) ← send_on env.memory h m (record s { connected = true })
  returned (record {
    client = record c { table = set c.table i (some s'); locked = false };
    success = sent;
    server_index = at i;
  }))

-- A return of -1 with an entry made, with the mutex held or free.
abbrev pub failed : Client → ℕ → Bool → ServerConnection → Call Connected
failed c i held s = returned (record {
  client = record c { table = set c.table i (some s); locked = held };
  success = false;
  server_index = at i;
})

-- `dynpm_connect_to_server` with an entry of the table. A failure to make a base or a buffer event
-- returns with the mutex held; a failure of the thread frees it.
unfoldable pub open_connection : Environment → ℕ → ℕ → ServerConnection → Client → Call Connected
open_connection env source i s c =
    let based = record s { evbase = true } in
    if not env.evbase_made
    then failed c i true s
    else if not env.dns_made
    then failed c i true based
    else if not env.buf_made
    then failed c i true based
    else if not env.thread_made
    then failed c i false based
    else if not env.thread_named
    then failed c i false based
    else register_with env source i based c

-- `_dynpm_init_server_connection`, and the fields that are set behind it.
abbrev pub new_connection : Bytes → Bytes → ℕ → Option ℕ → ℕ → ServerConnection
new_connection host port handler parent index = record {
  host = host;
  port = port;
  messages = [];
  parent_connection = parent;
  handler = handler;
  evbase = false;
  connected = false;
  index = index;
}

-- `dynpm_connect_to_server`
unfoldable pub connect : Environment → Bytes → Bytes → ℕ → ℕ → Option ℕ → Client → Call Connected
connect env host port handler source parent c =
    let counted = record c { count = c.count + 1 } in
    let full = returned (record { client = c; success = false; server_index = untouched }) in
    let no_entry =
      returned (record { client = counted; success = false; server_index = minus_one }) in
    let proceed =
      λ (i : ℕ). open_connection env source i (new_connection host port handler parent i) counted in
    if not c.initialized
    then full
    else (lock c.locked
        >> (if ltb (max_server_connections - 1) c.count
            then full
            else elim (find_free c.table 0) [ none ↦ no_entry | some i ↦ proceed i ]))

-- An entry that is not null
abbrev pub is_present : Option ServerConnection → Bool
is_present none = false
is_present (some s) = true

-- `dynpm_disconnect_from_server`: the client, and whether it returned 0.
unfoldable pub disconnect : ℕ → Client → Call (Client × Bool)
disconnect i c = lock c.locked >> elim (get_elem? c.table i) [
  | none ↦ crashed
  | some entry ↦
      let cleared = record c { table = set c.table i none; count = c.count - 1 } in
      if c.count == 0 then stopped else returned (cleared, is_present entry && c.initialized)
]

-- The guards that `dynpm_send_buffer_to_server` and `dynpm_send_message_to_server` share: the
-- connection at an index, or `none` where they return -1.
unfoldable pub connection_at : ℕ → Client → Call (Option ServerConnection)
connection_at i c =
    if not c.initialized
    then returned none
    else (lock c.locked
        >> elim (get_elem? c.table i) [ none ↦ crashed | some entry ↦ returned entry ])

-- `dynpm_send_buffer_to_server`
unfoldable pub send_buffer : Buffer → ℕ → Client → Call (Client × Bool)
send_buffer b i c = do
  found ← connection_at i c
  elim found [
    | none ↦ returned (c, false)
    | some s ↦ returned (
      record c { table = set c.table i (some (record s { messages = enqueue b s.messages })) },
      true,
    )
  ]

-- `dynpm_send_message_to_server`
unfoldable pub send_message : Buffer → Header → Message → ℕ → Client → Call (Client × Bool)
send_message memory h m i c = do
  found ← connection_at i c
  elim found [
    | none ↦ returned (c, false)
    | some s ↦ (do
      (s', sent) ← send_on memory h m s
      returned (record c { table = set c.table i (some s') }, sent))
  ]

-- `dynpm_send_header_to_server`
unfoldable pub send_header : Buffer → ℕ → MessageType → ℕ → Client → Call (Client × Bool)
send_header memory source type i c = do
  b ←
      of_outcome
        (serialize_header (record { source_type = source; message_type = code type }) memory)
  send_buffer b i c
