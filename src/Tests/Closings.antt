-- ===== src/Tests/Closings.antt =====
-- The end of a client's connection.
use libdynpm.Base.{[], ◌∷◌, some, false}
use libdynpm.Network.Client.{Client, ServerConnection}
use libdynpm.Network.Client.Laws.{client_with}
use libdynpm.Network.Client.Registering.{connected_entry}
use libdynpm.Network.Server.{ClientConnection, Server}
use libdynpm.Tests.Data.{node7}
use libdynpm.Tests.Clients.{empty_client, port}

-- A connection to a server, whose parent is the connection at the address 30.
abbrev child_entry : ServerConnection
child_entry = connected_entry node7 port 1 (some 30) 0 (5 ∷ [])

abbrev parent_client : Client
parent_client = client_with empty_client 0 child_entry

abbrev leaving : ClientConnection
leaving = record {
  pid = some 12;
  host = some node7;
  fd = 5;
  messages = [];
  messages_locked = false;
}

abbrev small_server : Server
small_server = record { objects = λ a. leaving; head = 20 ∷ 30 ∷ []; locked = false }
