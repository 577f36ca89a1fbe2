-- ===== src/Network/Client/Registering.antt =====
-- The registration that a client of src/network/client.c writes when it connects.
use libdynpm.Base.{ℕ, ◌<◌, ◌≡◌, true, false, [], ◌∷◌, Option, some, length, set, arith}
use libdynpm.Text.Chars.{Bytes, IsToken}
use libdynpm.Text.Outcome.{done}
use libdynpm.Text.Buffer.{Buffer}
use libdynpm.Protocol.Frame.{IsWord, IsMessageBuffer}
use libdynpm.Protocol.Header.{IsHeader, deserialize_header}
use libdynpm.Protocol.Connection.{
  RegisterConnectionMsg, IsRegisterConnectionMsg, serialize_register_connection_msg,
  deserialize_register_connection_msg,
}
use libdynpm.Protocol.Registration.{
  written, serialize_lem, header_lem, message_lem, written-IsMessageBuffer,
}
use libdynpm.Network.Call.{returned}
use libdynpm.Network.Queue.{enqueue}
use libdynpm.Network.Message.{client_case}
use libdynpm.Network.Client.Table.{
  ServerConnection, Client, Environment, ServerIndex, send_on, registration, register_with,
  new_connection,
}

-- Every call of the system succeeds, and the message that registers the connection can be written.
pub record IsWorking (source : ℕ) (env : Environment) : Type 0 where
  pub evbase_made : env.evbase_made ≡ true
  pub dns_made : env.dns_made ≡ true
  pub buf_made : env.buf_made ≡ true
  pub thread_made : env.thread_made ≡ true
  pub thread_named : env.thread_named ≡ true
  pub connects : env.connects ≡ true
  pub pid : IsWord env.pid
  pub hostname : IsToken env.hostname
  pub hostname_fits : length env.hostname < 256
  pub memory : IsMessageBuffer env.memory
  pub source_word : IsWord source

-- The buffer holds the registration of this environment: its header and its message are read from it.
pub record HoldsRegistration (source : ℕ) (env : Environment) (b : Buffer) : Type 0 where
  pub header : deserialize_header b ≡ done (registration source env).0
  pub message :
      deserialize_register_connection_msg b
      ≡ done (record { pid = env.pid; hostname = env.hostname })
  pub size : IsMessageBuffer b

-- The registration of a working environment is written, and reads back as it.
pub registered :
    (source : ℕ) (env : Environment)
    → IsWorking source env
    → (b : Buffer) × (serialize_register_connection_msg
          (registration source env).0
          (record { pid = env.pid; hostname = env.hostname })
          env.memory
        ≡ done b)
      × HoldsRegistration source env b
registered source env v =
    let h = (registration source env).0 in
    let m : RegisterConnectionMsg = record { pid = env.pid; hostname = env.hostname } in
    let words : IsHeader h = record { source = v.source_word; message = omega arith } in
    let fields : IsRegisterConnectionMsg m = record {
      pid = v.pid;
      hostname = v.hostname;
      hostname_fits = v.hostname_fits;
    } in
    (
      written h m env.memory words fields v.memory,
      serialize_lem h m env.memory words fields v.memory,
      record {
        header = header_lem h m env.memory words fields v.memory;
        message = message_lem h m env.memory words fields v.memory;
        size = written-IsMessageBuffer h m env.memory words fields v.memory;
      },
    )

-- The entry after a connection that works
abbrev pub connected_entry : Bytes → Bytes → ℕ → Option ℕ → ℕ → Buffer → ServerConnection
connected_entry host port handler parent i b = record (new_connection host port handler parent i) {
  evbase = true;
  connected = true;
  messages = b ∷ [];
}

pub register_with_lem :
    (env : Environment) (source i : ℕ) (s : ServerConnection) (c : Client) (b : Buffer)
    → env.connects ≡ true
    → serialize_register_connection_msg
        (registration source env).0
        (record { pid = env.pid; hostname = env.hostname })
        env.memory
      ≡ done b
    → register_with env source i s c
      ≡ returned (record {
        client = record c {
          table =
              set c.table i (some (record s { connected = true; messages = enqueue b s.messages }));
          locked = false;
        };
        success = true;
        server_index = ServerIndex.at i;
      })
unfolding register_with send_on client_case
register_with_lem env source i s c b up e = rw (up, e)
