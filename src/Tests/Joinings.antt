-- ===== src/Tests/Joinings.antt =====
-- A client that connects to a server.
use libdynpm.Base.{ℕ, ◌≡◌, ◌≢◌, refl, [], ◌∷◌, All, none, some, true, get_elem?}
use libdynpm.Text.Outcome.{done}
use libdynpm.Text.Buffer.{Buffer}
use libdynpm.Network.Call.{returned}
use libdynpm.Network.Queue.{run}
use libdynpm.Network.Queue.Draining.{drains}
use libdynpm.Network.Receive.{concat, server_on_read}
use libdynpm.Network.Client.{Client, ServerIndex, connect}
use libdynpm.Network.Client.Registering.{connected_entry}
use libdynpm.Network.Server.{Server, find_client, is_listed, top_handler}
use libdynpm.Network.Server.Lookup.{HasRegistered, IsRegistered}
use libdynpm.Network.Joining.{find_client-connect}
use libdynpm.Tests.Networks.{network, concat-network, network-IsAligned}
use libdynpm.Tests.Data.{empty_buffer, empty_buffer-IsMessageBuffer, node7}
use libdynpm.Tests.Clients.{
  empty_client, empty_client-IsClient, works, works-IsWorking, empty_client_has_room, port,
}
use libdynpm.Tests.Servers.{server, is_listed_20, own_handler}

-- The connection at 20 is the one that has not registered.
others_registered : All (λ b. b ≢ 20 → HasRegistered (server.objects b)) server.head
others_registered = ((λ ne. absurd (ne refl)), ((λ ne. (12, node7, refl, refl)), tt))

find_client-connect_example :
    (i : ℕ) × (b : Buffer) × (c' : Client) × (s' : Server) × (found : ℕ) × (connect works node7 port
        1 3 none empty_client
      ≡ returned (record { client = c'; success = true; server_index = ServerIndex.at i }))
    × (get_elem? c'.table i ≡ some (some (connected_entry node7 port 1 none i b)))
    × (server_on_read
          (λ k. empty_buffer)
          (network (concat (run (drains 1) (record { messages = b ∷ []; written = [] })).written))
          0
        ≡ done (b ∷ [], 0))
    × (top_handler own_handler 20 b server ≡ returned s')
    × (find_client node7 4242 s' ≡ returned (some found))
    × (is_listed found s'.head ≡ true)
    × IsRegistered (s'.objects found) node7 4242
find_client-connect_example =
    find_client-connect network (λ k. empty_buffer) works node7 port 1 3 none empty_client
      own_handler 20 server concat-network network-IsAligned (λ k. empty_buffer-IsMessageBuffer)
      empty_client-IsClient works-IsWorking empty_client_has_room is_listed_20 others_registered
