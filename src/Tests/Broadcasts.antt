-- ===== src/Tests/Broadcasts.antt =====
-- The broadcast to the children, the waits of a vertex, and the events of a connection.
use libdynpm.Base.{
  ℕ, ◌≡◌, ◌≢◌, ◌+◌, ◌*◌, refl, arith, [], ◌∷◌, some, none, get_elem?, true, false, inl, inr,
}
use libdynpm.Text.Chars.{codes}
use libdynpm.Network.Call.{returned}
use libdynpm.Network.Client.{client_init, Client, ServerConnection}
use libdynpm.Network.Client.Events.{What, client_on_error, after_event, client_on_error_lem}
use libdynpm.Network.Client.Laws.{IsClient, client_with, fill-IsClient}
use libdynpm.Network.Client.Registering.{connected_entry}
use libdynpm.Tbon.Vertex.{Vertex}
use libdynpm.Tbon.Broadcast.{send_message_to_children, IsSent, send_message_to_children_lem}
use libdynpm.Tbon.Waits.{Timeval, Timespec, of_timeval, of_timespec, wait_too_short, finalized_wait}
use libdynpm.Tests.Data.{empty_buffer, node7}
use libdynpm.Tests.Clients.{
  one_client, one_client-IsClient, entry, entry_found, second_is_null, port,
}

-- A second connection, at the index 1
abbrev entry₁ : ServerConnection
entry₁ = connected_entry node7 port 2 none 1 (6 ∷ [])

abbrev two_clients : Client
two_clients = client_with one_client 1 entry₁

two_clients-IsClient : IsClient two_clients
two_clients-IsClient = fill-IsClient one_client 1 entry₁ one_client-IsClient second_is_null refl

abbrev vertex : Vertex
vertex = record {
  id = 0;
  degree = 2;
  nodes = codes "n0,node7,n2";
  ready_count = 0;
  total_nodes = 3;
  local_host = codes "n0";
  parent_id = none;
  parent_connection = 0;
  total_children = 2;
  children_ids = some 1 ∷ some 2 ∷ [];
  children_hosts = node7 ∷ codes "n2" ∷ [];
  children_connection_indexes = 0 ∷ 1 ∷ [];
  process_data_reports = none ∷ none ∷ [];
  children_done = 0;
  initialized = true;
  finalized = false;
}

first_found : get_elem? two_clients.table 0 ≡ some (some entry)
unfolding client_init
first_found = refl

second_found : get_elem? two_clients.table 1 ≡ some (some entry₁)
unfolding client_init
second_found = refl

send_message_to_children_lem_example :
    (c' : Client) × (send_message_to_children empty_buffer vertex two_clients ≡ returned (c', true))
    × IsSent empty_buffer (0 ∷ 1 ∷ []) two_clients c'
send_message_to_children_lem_example =
    send_message_to_children_lem empty_buffer vertex two_clients two_clients-IsClient tt
      (((λ e. omega arith), tt), (tt, tt)) ((entry, first_found), ((entry₁, second_found), tt))

abbrev noon : Timeval
noon = record { tv_sec = 43200; tv_usec = 500000 }

abbrev deadline : Timespec
deadline = record { tv_sec = 43201; tv_nsec = 500000 }

finalized_wait-noon : finalized_wait vertex noon 1 0 ≡ some deadline
unfolding finalized_wait
finalized_wait-noon = refl

wait_too_short_example :
    of_timespec deadline + 999 * noon.tv_usec ≡ of_timeval noon + (1 * 1000000000 + 0)
wait_too_short_example = wait_too_short vertex noon 1 0 deadline (inr (inl finalized_wait-noon))

abbrev end_of_stream : What
end_of_stream = record { eof = true; connected = false }

client_on_error_lem_example :
    (c' : Client) × (client_on_error end_of_stream 0 one_client ≡ returned c')
    × (get_elem? c'.table 0 ≡ some (after_event end_of_stream entry))
    × ((j : ℕ) → 0 ≢ j → get_elem? c'.table j ≡ get_elem? one_client.table j)
    × IsClient c'
client_on_error_lem_example =
    client_on_error_lem end_of_stream one_client 0 entry one_client-IsClient entry_found
