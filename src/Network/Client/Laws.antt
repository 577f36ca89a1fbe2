-- ===== src/Network/Client/Laws.antt =====
-- The client's table stays well formed, and what its operations do to it.
use libdynpm.Network.Client.Registering.{
  IsWorking, HoldsRegistration, registered, connected_entry, register_with_lem,
}
use libdynpm.Base.{
  lt_of_get_elem?, ℕ, ◌+◌, ◌-◌, ◌<◌, ◌≡◌, ◌≢◌, inl, inr, refl, sym, ◌∙◌, ap, true, false, [], ◌∷◌,
  ◌++◌, List, Option, none, some, ltb, length, get_elem?, set, length-set, get_elem?-set_self,
  get_elem?-set_ne, get_elem?-set_inv, arith, lt→ltb,
}
use libdynpm.Text.Chars.{Bytes}
use libdynpm.Text.Buffer.{Buffer}
use libdynpm.Protocol.Registration.{written}
use libdynpm.Network.Call.{returned}
use libdynpm.Network.Queue.{enqueue, enqueue-append}
use libdynpm.Network.Client.Table.{
  max_server_connections, ServerConnection, Client, find_free, Environment, ServerIndex,
  register_with, open_connection, new_connection, connect, disconnect, connection_at, send_buffer,
}
use libdynpm.Network.Client.Entries.{
  occupied, occupied-fill, occupied-replace, occupied-clear, find_free_lem,
}

-- The client between two calls: the count is that of the entries in use, each entry knows its index,
-- and the mutex is free.
pub record IsClient (c : Client) : Type 0 where
  pub ready : c.initialized ≡ true
  pub size : length c.table ≡ max_server_connections
  pub counted : c.count ≡ occupied c.table
  pub indexed : (i : ℕ) (s : ServerConnection) → get_elem? c.table i ≡ some (some s) → s.index ≡ i
  pub free : c.locked ≡ false

-- What `connect` leaves: the client with the new entry.
abbrev pub client_with : Client → ℕ → ServerConnection → Client
client_with c i s = record c { table = set c.table i (some s); count = c.count + 1; locked = false }

pub fill-IsClient :
    (c : Client) (i : ℕ) (s : ServerConnection)
    → IsClient c
    → get_elem? c.table i ≡ some none
    → s.index ≡ i
    → IsClient (client_with c i s)
fill-IsClient c i s v null at_i = record {
  ready = v.ready;
  size = length-set c.table i (some s) ∙ v.size;
  counted = omega (arith, v.counted, occupied-fill c.table i s null);
  indexed = λ j t e. elim (get_elem?-set_inv c.table i j (some s) (some t) e) [
    | inl (here, same) ↦
        let written : t ≡ s = cc in ap (λ (u : ServerConnection). u.index) written ∙ at_i ∙ here
    | inr kept ↦ v.indexed j t kept
  ];
  free = refl;
}

pub connect_open :
    (env : Environment) (host port : Bytes) (handler source i : ℕ) (parent : Option ℕ) (c : Client)
    → c.initialized ≡ true
    → c.locked ≡ false
    → c.count < max_server_connections
    → find_free c.table 0 ≡ some i
    → connect env host port handler source parent c
      ≡ open_connection env source i
          (new_connection host port handler parent i)
          (record c { count = c.count + 1 })
unfolding connect
connect_open env host port handler source i parent c ready free room found = ground arith

open_works :
    (env : Environment) (source i : ℕ) (s : ServerConnection) (c : Client)
    → IsWorking source env
    → open_connection env source i s c ≡ register_with env source i (record s { evbase = true }) c
unfolding open_connection
open_works env source i s c w =
    simp (w.evbase_made, w.dns_made, w.buf_made, w.thread_made, w.thread_named)

-- In a client with fewer than 64 connections a connection that meets no error takes the first null
-- entry, which holds one message of the message size, the registration, whose header is read back, and
-- whose text as the process id and the host name of this host; the call returns 0 with that index, the
-- rest of the table is as it was, and the client is well formed.
pub connect_lem :
    (env : Environment) (host port : Bytes) (handler source : ℕ) (parent : Option ℕ) (c : Client)
    → IsClient c
    → IsWorking source env
    → occupied c.table < max_server_connections
    → (i : ℕ) × (b : Buffer) × (connect env host port handler source parent c
        ≡ returned (record {
          client = client_with c i (connected_entry host port handler parent i b);
          success = true;
          server_index = ServerIndex.at i;
        }))
      × (get_elem? c.table i ≡ some none)
      × ((l : ℕ) → l < i → get_elem? c.table l ≢ some none)
      × HoldsRegistration source env b
      × IsClient (client_with c i (connected_entry host port handler parent i b))
unfolding enqueue
connect_lem env host port handler source parent c v w room =
    let (i, found, null, first) = find_free_lem c.table 0 (omega (arith, v.size)) in
    let (b, written, reads) = registered source env w in
    let place : find_free c.table 0 ≡ some i = found ∙ ap some (omega arith) in
    (
      i,
      b,
      connect_open env host port handler source i parent c v.ready v.free
            (omega (arith, v.counted, room)) place
          ∙ open_works env source i (new_connection host port handler parent i)
              (record c { count = c.count + 1 }) w
          ∙ register_with_lem env source i
              (record (new_connection host port handler parent i) { evbase = true })
              (record c { count = c.count + 1 }) b w.connects written,
      null,
      first,
      reads,
      fill-IsClient c i (connected_entry host port handler parent i b) v null refl,
    )

-- In a client with 64 connections a connection is refused: the call returns -1 and changes nothing.
pub connect_full :
    (env : Environment) (host port : Bytes) (handler source : ℕ) (parent : Option ℕ) (c : Client)
    → IsClient c
    → occupied c.table ≡ max_server_connections
    → connect env host port handler source parent c
      ≡ returned (record { client = c; success = false; server_index = ServerIndex.untouched })
unfolding connect
connect_full env host port handler source parent c v full =
    let many : ltb (max_server_connections - 1) c.count ≡ true =
      lt→ltb _ _ (omega (arith, v.counted, full)) in
    ground (arith, v.ready, v.free, many)

clear-IsClient :
    (c : Client) (i : ℕ) (s : ServerConnection)
    → IsClient c
    → get_elem? c.table i ≡ some (some s)
    → IsClient (record c { table = set c.table i none; count = c.count - 1 })
clear-IsClient c i s v e = record {
  ready = v.ready;
  size = length-set c.table i none ∙ v.size;
  counted = omega (arith, v.counted, occupied-clear c.table i e);
  indexed = λ j t f. elim (get_elem?-set_inv c.table i j none (some t) f) [
    | inl clash ↦ cc (clash.1)
    | inr kept ↦ v.indexed j t kept
  ];
  free = v.free;
}

-- In a well-formed client a disconnection at an entry in use returns 0, clears that entry alone, lowers
-- the count, and leaves the client well formed.
pub disconnect_lem :
    (c : Client) (i : ℕ) (s : ServerConnection)
    → IsClient c
    → get_elem? c.table i ≡ some (some s)
    → (disconnect i c
        ≡ returned (record c { table = set c.table i none; count = c.count - 1 }, true))
      × IsClient (record c { table = set c.table i none; count = c.count - 1 })
unfolding disconnect
disconnect_lem c i s v e =
    let some_left : 0 < c.count = omega (arith, v.counted, occupied-clear c.table i e) in
    (ground (arith, v.ready, v.free), clear-IsClient c i s v e)

pub replace-IsClient :
    (c : Client) (i : ℕ) (s t : ServerConnection)
    → IsClient c
    → get_elem? c.table i ≡ some (some s)
    → t.index ≡ s.index
    → IsClient (record c { table = set c.table i (some t) })
replace-IsClient c i s t v e same = record {
  ready = v.ready;
  size = length-set c.table i (some t) ∙ v.size;
  counted = v.counted ∙ sym (occupied-replace c.table i t e);
  indexed = λ j u f. elim (get_elem?-set_inv c.table i j (some t) (some u) f) [
    | inl (here, written) ↦
        let is_t : u ≡ t = cc in
        ap (λ (x : ServerConnection). x.index) is_t ∙ same ∙ v.indexed i s e ∙ here
    | inr kept ↦ v.indexed j u kept
  ];
  free = v.free;
}

-- A buffer sent to an entry in use of a well-formed client is put behind the messages of that
-- entry; the call returns 0, every other entry is as it was, and the client is well formed.
pub send_buffer_lem :
    (c : Client) (i : ℕ) (s : ServerConnection) (b : Buffer)
    → IsClient c
    → get_elem? c.table i ≡ some (some s)
    → (c' : Client) × (send_buffer b i c ≡ returned (c', true))
      × (get_elem? c'.table i ≡ some (some (record s { messages = s.messages ++ b ∷ [] })))
      × ((j : ℕ) → i ≢ j → get_elem? c'.table j ≡ get_elem? c.table j)
      × IsClient c'
unfolding send_buffer connection_at
send_buffer_lem c i s b v e =
    let t = record s { messages = enqueue b s.messages } in
    (
      record c { table = set c.table i (some t) },
      ground (arith, v.ready, v.free),
      get_elem?-set_self c.table i (some t) (lt_of_get_elem? c.table i e)
          ∙ ap (λ (m : List Buffer). some (some (record s { messages = m })))
              (enqueue-append b s.messages),
      (λ j ne. get_elem?-set_ne c.table (some t) ne),
      replace-IsClient c i s t v e refl,
    )
