-- ===== src/Tests/Deliveries.antt =====
-- Messages from a client to the work queue of its server.
use libdynpm.Base.{
  false, ◌<◌, ℕ, ◌≡◌, refl, arith, [], ◌∷◌, ◌++◌, List, All, some, true, get_elem?, length,
}
use libdynpm.Text.Outcome.{◌>>=◌, done}
use libdynpm.Text.Buffer.{Buffer}
use libdynpm.Protocol.ProcessManager.{
  RegisterProcessManagerMsg, serialize_register_process_manager_msg,
  deserialize_register_process_manager_msg,
}
use libdynpm.Protocol.ProcessManager.Writing.{IsApplication}
use libdynpm.Protocol.ProcessManager.RoundTrip.{
  IsRegisterProcessManagerMsg, deserialize-serialize_register_process_manager_msg,
}
use libdynpm.Protocol.Tree.{CreateTbonMsg, IsCreateTbonMsg}
use libdynpm.Network.Call.{returned}
use libdynpm.Network.Message.{Message}
use libdynpm.Network.Message.ReadBack.{registers, creates, tbon_ready, ReadsBack}
use libdynpm.Network.Queue.{Event, send, drain, Outbox, run, sends}
use libdynpm.Network.Queue.Draining.{drains, queue_drains}
use libdynpm.Network.Receive.{concat, server_on_read, client_on_read, handles}
use libdynpm.Network.Client.{client_init, Client, ServerConnection}
use libdynpm.Network.Client.Laws.{IsClient, client_with, fill-IsClient}
use libdynpm.Protocol.Header.{MessageType}
use libdynpm.Protocol.Tree.{ReadyMsg, IsReadyMsg}
use libdynpm.Network.Server.{ClientConnection, send_message_to_client}
use libdynpm.Network.Server.Callbacks.{Link, server_on_write}
use libdynpm.Network.Reply.{reply_delivered}
use libdynpm.Network.Delivery.{Parcel, IsParcel, send_all, AreReadBack, messages_delivered}
use libdynpm.Tests.Networks.{network, concat-network, network-IsAligned}
use libdynpm.Tests.Data.{
  empty_buffer, empty_buffer-IsMessageBuffer, node7, node7-IsToken, node7_fits, header,
  header-IsHeader,
}
use libdynpm.Tests.Clients.{empty_client, empty_client-IsClient, first_is_null, entry}
use libdynpm.Tests.Servers.{known, hello, hello-IsRegisterConnectionMsg}

-- A connection at index 0 with nothing waiting
abbrev quiet_entry : ServerConnection
quiet_entry = record entry { messages = [] }

abbrev quiet_client : Client
quiet_client = client_with empty_client 0 quiet_entry

quiet_client-IsClient : IsClient quiet_client
quiet_client-IsClient =
    fill-IsClient empty_client 0 quiet_entry empty_client-IsClient first_is_null refl

quiet_entry_found : get_elem? quiet_client.table 0 ≡ some (some quiet_entry)
unfolding client_init
quiet_entry_found = refl

abbrev create : CreateTbonMsg
create = record { id = 9; degree = 2; total = 5; nodes = node7 }

create-IsCreateTbonMsg : IsCreateTbonMsg create
create-IsCreateTbonMsg = record {
  id = omega arith;
  degree = omega arith;
  total = omega arith;
  nodes = node7-IsToken;
  nodes_fits = omega (arith, node7_fits);
}

-- A registration, and the creation of a tree
abbrev parcels : List Parcel
parcels =
    record { memory = empty_buffer; header = header 1; message = Message.register_connection hello }
    ∷ record { memory = empty_buffer; header = header 7; message = Message.create_tbon create }
    ∷ []

parcels-IsParcel : All IsParcel parcels
parcels-IsParcel = (
  record {
    type = MessageType.register_connection;
    words = header-IsHeader 1 (omega arith);
    is_type = refl;
    size = empty_buffer-IsMessageBuffer;
    sends = registers hello-IsRegisterConnectionMsg;
  },
  (
    record {
      type = MessageType.create_tbon;
      words = header-IsHeader 7 (omega arith);
      is_type = refl;
      size = empty_buffer-IsMessageBuffer;
      sends = creates create-IsCreateTbonMsg;
    },
    tt,
  ),
)

messages_delivered_example :
    (c' : Client) × (messages : List Buffer) × (send_all parcels 0 quiet_client
      ≡ returned (c', true))
    × (get_elem? c'.table 0 ≡ some (some (record quiet_entry { messages = messages })))
    × (server_on_read
          (λ k. empty_buffer)
          (network (
            concat
              (run
                (drains (length messages))
                (record { messages = messages; written = [] })).written))
          0
        ≡ done (messages, 0))
    × AreReadBack parcels messages
messages_delivered_example =
    messages_delivered network (λ k. empty_buffer) parcels quiet_client 0 quiet_entry concat-network
      network-IsAligned (λ k. empty_buffer-IsMessageBuffer) quiet_client-IsClient quiet_entry_found
      refl parcels-IsParcel

-- A process manager with two applications
abbrev manager : RegisterProcessManagerMsg
manager = record {
  pid = 4242;
  hostname = node7;
  job_index = 3;
  application_count = 2;
  applications =
      record { application_index = 0; malleability_mode = 1; node_count = 1; nodes = node7 }
      ∷ record { application_index = 1; malleability_mode = 2; node_count = 1; nodes = node7 }
      ∷ [];
}

sample-IsApplication :
    (i mode : ℕ)
    → i < 2
    → mode < 3
    → IsApplication
        (record { application_index = i; malleability_mode = mode; node_count = 1; nodes = node7 })
sample-IsApplication i mode small known_mode = record {
  application_index = omega arith;
  malleability_mode = omega arith;
  node_count = omega arith;
  nodes = node7-IsToken;
  nodes_fits = omega (arith, node7_fits);
}

manager-IsRegisterProcessManagerMsg : IsRegisterProcessManagerMsg manager
manager-IsRegisterProcessManagerMsg = record {
  pid = omega arith;
  hostname = node7-IsToken;
  hostname_fits = omega (arith, node7_fits);
  job_index = omega arith;
  counted = refl;
  few = omega arith;
  applications = (
    sample-IsApplication 0 1 (omega arith) (omega arith),
    (sample-IsApplication 1 2 (omega arith) (omega arith), tt),
  );
}

deserialize-serialize_register_process_manager_msg_example :
    (left : Buffer) × ((do
      b' ← serialize_register_process_manager_msg 0 (header 3) manager empty_buffer
      deserialize_register_process_manager_msg b')
      ≡ done (manager, left))
deserialize-serialize_register_process_manager_msg_example =
    deserialize-serialize_register_process_manager_msg (header 3) manager empty_buffer
      (header-IsHeader 3 (omega arith)) manager-IsRegisterProcessManagerMsg
      empty_buffer-IsMessageBuffer

abbrev waiting : Outbox
waiting = record { messages = (1 ∷ []) ∷ []; written = [] }

abbrev traffic : List Event
traffic = send (2 ∷ []) ∷ drain ∷ send (3 ∷ []) ∷ []

queue_drains_example :
    ((run (traffic ++ drains 4) waiting).messages ≡ [])
    × ((run (traffic ++ drains 4) waiting).written
        ≡ (waiting.written ++ waiting.messages) ++ sends traffic)
queue_drains_example = queue_drains traffic 4 waiting (omega arith)

abbrev all_ready : ReadyMsg
all_ready = record { id = 2; subtree_ready_count = 5; error_code = 0 }

all_ready-IsReadyMsg : IsReadyMsg all_ready
all_ready-IsReadyMsg = record {
  id = omega arith;
  subtree_ready_count = omega arith;
  error_code = omega arith;
}

-- A connection to a client, with nothing waiting
abbrev link : Link
link = record {
  connection = record known { messages = [] };
  mutex_locked = false;
  written = (9 ∷ []) ∷ [];
}

reply_delivered_example :
    (b : Buffer) × (o : ClientConnection) × (send_message_to_client empty_buffer
        (header 8)
        (Message.ready all_ready)
        link.connection
      ≡ returned (o, true))
    × (server_on_write true (some (record link { connection = o }))
        ≡ returned (record link {
          connection = record o { messages = [] };
          written = link.written ++ b ∷ [];
        }))
    × (client_on_read empty_buffer (length b) (network b) ≡ handles b)
    × ReadsBack (Message.ready all_ready) b
reply_delivered_example =
    reply_delivered network empty_buffer empty_buffer (header 8) MessageType.ready_tbon
      (Message.ready all_ready) link concat-network refl refl refl (header-IsHeader 8 (omega arith))
      refl empty_buffer-IsMessageBuffer empty_buffer-IsMessageBuffer
      (tbon_ready all_ready-IsReadyMsg)
