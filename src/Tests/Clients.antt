-- ===== src/Tests/Clients.antt =====
-- The client's table, and the queue of a connection.
use libdynpm.Base.{
  ℕ, ◌≡◌, ◌≢◌, ◌<◌, ◌+◌, refl, arith, ap, ◌∙◌, [], ◌∷◌, some, none, get_elem?, true, false, inl,
}
use libdynpm.Text.Chars.{Bytes, codes}
use libdynpm.Text.Buffer.{Buffer}
use libdynpm.Network.Message.{Message}
use libdynpm.Network.Call.{returned, blocked}
use libdynpm.Network.Client.{
  max_server_connections, ServerConnection, Client, Environment, ServerIndex, Connected,
  client_init, fresh_client, connect, disconnect, send_buffer, send_message,
}
use libdynpm.Network.Client.Entries.{occupied, occupied-replicate, occupied-fill}
use libdynpm.Network.Client.Laws.{IsClient, client_with, fill-IsClient, connect_lem}
use libdynpm.Network.Client.Registering.{HoldsRegistration, IsWorking, connected_entry}
use libdynpm.Network.Client.Start.{client_init-IsClient}
use libdynpm.Network.Client.Locks.{connect_leaves_lock}
use libdynpm.Tests.Data.{
  empty_buffer, empty_buffer-IsMessageBuffer, node7, node7-IsToken, node7_fits, header,
}

-- The client after its start
abbrev pub empty_client : Client
empty_client = client_init fresh_client

pub empty_client-IsClient : IsClient empty_client
empty_client-IsClient = client_init-IsClient fresh_client refl

abbrev pub works : Environment
works = record {
  evbase_made = true;
  dns_made = true;
  buf_made = true;
  thread_made = true;
  thread_named = true;
  connects = true;
  pid = 4242;
  hostname = node7;
  memory = empty_buffer;
}

pub works-IsWorking : IsWorking 3 works
works-IsWorking = record {
  evbase_made = refl;
  dns_made = refl;
  buf_made = refl;
  thread_made = refl;
  thread_named = refl;
  connects = refl;
  pid = omega arith;
  hostname = node7-IsToken;
  hostname_fits = omega (arith, node7_fits);
  memory = empty_buffer-IsMessageBuffer;
  source_word = omega arith;
}

pub empty_client_has_room : occupied empty_client.table < max_server_connections
unfolding client_init
empty_client_has_room = omega (arith, occupied-replicate max_server_connections)

abbrev pub port : Bytes
port = codes "7000"

connect_lem_example :
    (i : ℕ) × (b : Buffer) × (connect works node7 port 1 3 none empty_client
      ≡ returned (record {
        client = client_with empty_client i (connected_entry node7 port 1 none i b);
        success = true;
        server_index = ServerIndex.at i;
      }))
    × (get_elem? empty_client.table i ≡ some none)
    × ((l : ℕ) → l < i → get_elem? empty_client.table l ≢ some none)
    × HoldsRegistration 3 works b
    × IsClient (client_with empty_client i (connected_entry node7 port 1 none i b))
connect_lem_example =
    connect_lem works node7 port 1 3 none empty_client empty_client-IsClient works-IsWorking
      empty_client_has_room

-- A connection at index 0 of the table.
abbrev pub entry : ServerConnection
entry = connected_entry node7 port 1 none 0 (5 ∷ [])

abbrev pub one_client : Client
one_client = client_with empty_client 0 entry

pub first_is_null : get_elem? empty_client.table 0 ≡ some none
unfolding client_init
first_is_null = refl

pub one_client-IsClient : IsClient one_client
one_client-IsClient = fill-IsClient empty_client 0 entry empty_client-IsClient first_is_null refl

pub entry_found : get_elem? one_client.table 0 ≡ some (some entry)
unfolding client_init
entry_found = refl

pub second_is_null : get_elem? one_client.table 1 ≡ some none
unfolding client_init
second_is_null = refl

one_client_in_use : occupied one_client.table ≡ 1
one_client_in_use =
    occupied-fill empty_client.table 0 entry first_is_null
    ∙ unfold client_init in ap (λ (k : ℕ). k + 1) (occupied-replicate max_server_connections)

-- No event base can be made.
abbrev lacks_base : Environment
lacks_base = record works { evbase_made = false }

connect_leaves_lock_example :
    (r : Connected) × (connect lacks_base node7 port 1 3 none empty_client ≡ returned r)
    × (r.success ≡ false)
    × (connect works (codes "node8") port 2 4 (some 20) r.client ≡ blocked)
    × (disconnect 0 r.client ≡ blocked)
    × (send_buffer (6 ∷ []) 0 r.client ≡ blocked)
    × (send_message empty_buffer (header 2) Message.other 0 r.client ≡ blocked)
connect_leaves_lock_example =
    connect_leaves_lock lacks_base node7 port 1 3 none empty_client works (codes "node8") port 2 4
      (some 20) 0 (6 ∷ []) empty_buffer (header 2) Message.other empty_client-IsClient
      empty_client_has_room (inl refl)

one_client_busy : 0 < occupied one_client.table
one_client_busy = omega (arith, one_client_in_use)
