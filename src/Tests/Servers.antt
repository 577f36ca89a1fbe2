-- ===== src/Tests/Servers.antt =====
-- The list of the server, and what it sends.
use libdynpm.Base.{
  ℕ, ◌≡◌, refl, arith, [], ◌∷◌, All, some, none, true, false, inr, if◌then◌else◌, ◌==◌,
}
use libdynpm.Text.Buffer.{Buffer}
use libdynpm.Protocol.Header.{Header, of_code}
use libdynpm.Protocol.Connection.{RegisterConnectionMsg, IsRegisterConnectionMsg}
use libdynpm.Network.Call.{Call, returned, blocked}
use libdynpm.Network.Message.{Message, ServerCase, server_case}
use libdynpm.Network.Server.{
  ClientConnection, Server, register_client, find_client, is_listed, send_buffer_to_client,
  send_message_to_client,
}
use libdynpm.Network.Server.Lookup.{IsRegistered, HasRegistered, find-register}
use libdynpm.Network.Server.Sending.{send_message_to_client_refused}
use libdynpm.Tests.Data.{empty_buffer, node7, node7-IsToken, node7_fits, header}

abbrev pub known : ClientConnection
known = record {
  pid = some 12;
  host = some node7;
  fd = 5;
  messages = (4 ∷ []) ∷ [];
  messages_locked = false;
}

abbrev new : ClientConnection
new = record { pid = none; host = none; fd = 6; messages = []; messages_locked = false }

-- Two connections, of which the first, at the address 20, has not registered.
abbrev pub server : Server
server = record {
  objects = λ a. if a == 20 then new else known;
  head = 20 ∷ 30 ∷ [];
  locked = false;
}

abbrev pub hello : RegisterConnectionMsg
hello = record { pid = 4242; hostname = node7 }

pub hello-IsRegisterConnectionMsg : IsRegisterConnectionMsg hello
hello-IsRegisterConnectionMsg = record {
  pid = omega arith;
  hostname = node7-IsToken;
  hostname_fits = omega (arith, node7_fits);
}

abbrev pub own_handler : ℕ → Buffer → Server → Call Server
own_handler a b s = returned s

pub is_listed_20 : is_listed 20 server.head ≡ true
unfolding is_listed
is_listed_20 = refl

every_known : All (λ b. HasRegistered ((register_client 20 hello server).objects b)) server.head
unfolding register_client
every_known = ((4242, node7, refl, refl), ((12, node7, refl, refl), tt))

find-register_example :
    (b : ℕ) × (find_client node7 4242 (register_client 20 hello server) ≡ returned (some b))
    × (is_listed b server.head ≡ true)
    × IsRegistered ((register_client 20 hello server).objects b) node7 4242
find-register_example = find-register server 20 hello is_listed_20 every_known

abbrev registered_server : Server
registered_server = record { objects = λ a. known; head = 20 ∷ 30 ∷ []; locked = false }

no_case : server_case (of_code 7) (header 7) Message.other empty_buffer ≡ ServerCase.unknown
unfolding server_case
no_case = refl

send_message_to_client_refused_example :
    (after : ClientConnection) × (send_message_to_client empty_buffer (header 7) Message.other known
      ≡ returned (after, false))
    × (after.messages ≡ known.messages)
    × ((b : Buffer) → send_buffer_to_client b after ≡ blocked)
    × ((memory' : Buffer) (h' : Header) (m' : Message)
        → send_message_to_client memory' h' m' after ≡ blocked)
send_message_to_client_refused_example =
    send_message_to_client_refused empty_buffer (header 7) Message.other known refl (inr no_case)
