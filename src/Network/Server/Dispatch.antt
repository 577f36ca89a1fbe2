-- ===== src/Network/Server/Dispatch.antt =====
-- What the server does with the registration that a client sends when it connects.
use libdynpm.Base.{ℕ, ◌≡◌}
use libdynpm.Text.Buffer.{Buffer}
use libdynpm.Protocol.Frame.{IsMessageBuffer}
use libdynpm.Protocol.Header.{Header, IsHeader, MessageType, code}
use libdynpm.Protocol.Connection.{
  RegisterConnectionMsg, IsRegisterConnectionMsg, serialize_register_connection_msg,
}
use libdynpm.Protocol.Registration.{serialize_lem, header_lem, message_lem}
use libdynpm.Network.Call.{Call, returned, of_outcome, ◌>>=◌}
use libdynpm.Network.Client.{Environment}
use libdynpm.Network.Client.Registering.{HoldsRegistration}
use libdynpm.Network.Server.Registry.{Server, register_client, top_handler}

-- A registration in a buffer of the message size, with numbers that are words, a host of one token
-- that fits its array and the type of its header, makes the server register the connection that it
-- arrives on with the process id and the host in it, whatever the program's own handler is.
pub top_handler-registration :
    (handler : ℕ → Buffer → Server → Call Server) (a : ℕ) (s : Server) (h : Header)
    (m : RegisterConnectionMsg) (b : Buffer)
    → IsHeader h
    → IsRegisterConnectionMsg m
    → IsMessageBuffer b
    → h.message_type ≡ code MessageType.register_connection
    → (do b' ← of_outcome (serialize_register_connection_msg h m b); top_handler handler a b' s)
      ≡ returned (register_client a m s)
unfolding top_handler
top_handler-registration handler a s h m b v w size is_registration = rw (
  serialize_lem h m b v w size,
  header_lem h m b v w size,
  message_lem h m b v w size,
  is_registration,
)

-- The server's top handler registers the connection that a registration arrives on.
pub top_handler-HoldsRegistration :
    (handler : ℕ → Buffer → Server → Call Server) (source : ℕ) (env : Environment) (b : Buffer)
    (a : ℕ) (s : Server)
    → HoldsRegistration source env b
    → top_handler handler a b s
      ≡ returned (register_client a (record { pid = env.pid; hostname = env.hostname }) s)
unfolding top_handler
top_handler-HoldsRegistration handler source env b a s v = rw (v.header, v.message)
