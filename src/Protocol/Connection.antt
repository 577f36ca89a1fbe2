-- ===== src/Protocol/Connection.antt =====
-- Registering and deregistering a connection, and deregistering a process manager
-- (src/network/protocol.c).
use libdynpm.Base.{ℕ, ◌<◌, ◌≡◌, refl, [], ◌∷◌, List, length, arith}
use libdynpm.Text.Chars.{Bytes, IsToken}
use libdynpm.Text.Outcome.{Outcome, done, unset, ◌>>=◌}
use libdynpm.Text.Format.{Value, num, str, directives}
use libdynpm.Text.Scan.{word, chars}
use libdynpm.Text.RoundTrip.{number_space, token_space, number, token, finished}
use libdynpm.Text.Buffer.{Buffer, sprintf, sscanf}
use libdynpm.Protocol.Frame.{IsWord, IsMessageBuffer, read_back}
use libdynpm.Protocol.Header.{Header, IsHeader}

-- `dynpm_register_connection_msg_t`
pub record RegisterConnectionMsg : Type 0 where
  pub pid : ℕ
  pub hostname : Bytes

-- Every number is a 32-bit word, and every text is one token that fits the array it is read to.
pub record IsRegisterConnectionMsg (m : RegisterConnectionMsg) : Type 0 where
  pub pid : IsWord m.pid
  pub hostname : IsToken m.hostname
  pub hostname_fits : length m.hostname < 256

-- `dynpm_serialize_register_connection_msg`
unfoldable pub serialize_register_connection_msg :
    Header → RegisterConnectionMsg → Buffer → Outcome Buffer
serialize_register_connection_msg h m b =
    sprintf "%d %d %d %s" (num h.source_type ∷ num h.message_type ∷ num m.pid ∷ str m.hostname ∷ [])
      b

unfoldable pub register_connection_msg_of : List Value → Outcome RegisterConnectionMsg
register_connection_msg_of (num source ∷ num message ∷ num pid ∷ str hostname ∷ []) =
    done (record { pid = pid; hostname = hostname })
register_connection_msg_of _ = unset

-- `dynpm_deserialize_register_connection_msg`
unfoldable pub deserialize_register_connection_msg : Buffer → Outcome RegisterConnectionMsg
unfolding register_connection_msg_of
deserialize_register_connection_msg b = do
  vs ← sscanf "%d %d %d %s" (word ∷ word ∷ word ∷ chars 256 ∷ []) b
  register_connection_msg_of vs

-- In a buffer of the message size, a registration with a header is written, and read back as it
-- was, if its numbers and those of the header are 32-bit words and each text is one token that fits
-- its array.
pub deserialize-serialize_register_connection_msg :
    (h : Header) (m : RegisterConnectionMsg) (b : Buffer)
    → IsHeader h
    → IsRegisterConnectionMsg m
    → IsMessageBuffer b
    → (do b' ← serialize_register_connection_msg h m b; deserialize_register_connection_msg b')
      ≡ done m
unfolding serialize_register_connection_msg deserialize_register_connection_msg
    register_connection_msg_of directives
deserialize-serialize_register_connection_msg h m b v w size =
    read_back "%d %d %d %s" "%d %d %d %s"
      (number_space v.source (
        number_space v.message (number_space w.pid (token w.hostname w.hostname_fits tt finished))))
      (omega arith) register_connection_msg_of b (omega arith)

-- `dynpm_deregister_connection_msg_t`
pub record DeregisterConnectionMsg : Type 0 where
  pub pid : ℕ
  pub hostname : Bytes
  pub error_code : ℕ

-- Every number is a 32-bit word, and every text is one token that fits the array it is read to.
pub record IsDeregisterConnectionMsg (m : DeregisterConnectionMsg) : Type 0 where
  pub pid : IsWord m.pid
  pub hostname : IsToken m.hostname
  pub hostname_fits : length m.hostname < 256
  pub error_code : IsWord m.error_code

-- `dynpm_serialize_deregister_connection_msg`
unfoldable pub serialize_deregister_connection_msg :
    Header → DeregisterConnectionMsg → Buffer → Outcome Buffer
serialize_deregister_connection_msg h m b =
    sprintf "%d %d %d %s %d"
      (num h.source_type ∷ num h.message_type ∷ num m.pid ∷ str m.hostname ∷ num m.error_code ∷ [])
      b

deregister_connection_msg_of : List Value → Outcome DeregisterConnectionMsg
deregister_connection_msg_of
      (num source ∷ num message ∷ num pid ∷ str hostname ∷ num error_code ∷ []) =
    done (record { pid = pid; hostname = hostname; error_code = error_code })
deregister_connection_msg_of _ = unset

-- `dynpm_deserialize_deregister_connection_msg`
unfoldable pub deserialize_deregister_connection_msg : Buffer → Outcome DeregisterConnectionMsg
unfolding deregister_connection_msg_of
deserialize_deregister_connection_msg b = do
  vs ← sscanf "%d %d %d %s %d" (word ∷ word ∷ word ∷ chars 256 ∷ word ∷ []) b
  deregister_connection_msg_of vs

-- In a buffer of the message size, a deregistration with a header is written, and read back as it
-- was, if its numbers and those of the header are 32-bit words and each text is one token that fits
-- its array.
pub deserialize-serialize_deregister_connection_msg :
    (h : Header) (m : DeregisterConnectionMsg) (b : Buffer)
    → IsHeader h
    → IsDeregisterConnectionMsg m
    → IsMessageBuffer b
    → (do b' ← serialize_deregister_connection_msg h m b; deserialize_deregister_connection_msg b')
      ≡ done m
unfolding serialize_deregister_connection_msg deserialize_deregister_connection_msg
    deregister_connection_msg_of directives
deserialize-serialize_deregister_connection_msg h m b v w size =
    read_back "%d %d %d %s %d" "%d %d %d %s %d"
      (number_space v.source (
        number_space v.message (
          number_space w.pid
            (token_space w.hostname w.hostname_fits (number w.error_code tt finished)))))
      (omega arith) deregister_connection_msg_of b (omega arith)

-- `dynpm_deregister_process_manager_msg_t`
pub record DeregisterProcessManagerMsg : Type 0 where
  pub pid : ℕ
  pub hostname : Bytes
  pub error_code : ℕ

-- Every number is a 32-bit word, and every text is one token that fits the array it is read to.
pub record IsDeregisterProcessManagerMsg (m : DeregisterProcessManagerMsg) : Type 0 where
  pub pid : IsWord m.pid
  pub hostname : IsToken m.hostname
  pub hostname_fits : length m.hostname < 256
  pub error_code : IsWord m.error_code

-- `dynpm_serialize_deregister_process_manager_msg`
unfoldable pub serialize_deregister_process_manager_msg :
    Header → DeregisterProcessManagerMsg → Buffer → Outcome Buffer
serialize_deregister_process_manager_msg h m b =
    sprintf "%d %d %d %s %d \n"
      (num h.source_type ∷ num h.message_type ∷ num m.pid ∷ str m.hostname ∷ num m.error_code ∷ [])
      b

deregister_process_manager_msg_of : List Value → Outcome DeregisterProcessManagerMsg
deregister_process_manager_msg_of
      (num source ∷ num message ∷ num pid ∷ str hostname ∷ num error_code ∷ []) =
    done (record { pid = pid; hostname = hostname; error_code = error_code })
deregister_process_manager_msg_of _ = unset

-- `dynpm_deserialize_deregister_process_manager_msg`
unfoldable pub deserialize_deregister_process_manager_msg :
    Buffer → Outcome DeregisterProcessManagerMsg
unfolding deregister_process_manager_msg_of
deserialize_deregister_process_manager_msg b = do
  vs ← sscanf "%d %d %d %s %d" (word ∷ word ∷ word ∷ chars 256 ∷ word ∷ []) b
  deregister_process_manager_msg_of vs

-- In a buffer of the message size, the deregistration of a process manager with a header is
-- written, and read back as it was, if its numbers and those of the header are 32-bit words and
-- each text is one token that fits its array.
pub deserialize-serialize_deregister_process_manager_msg :
    (h : Header) (m : DeregisterProcessManagerMsg) (b : Buffer)
    → IsHeader h
    → IsDeregisterProcessManagerMsg m
    → IsMessageBuffer b
    → (do
      b' ← serialize_deregister_process_manager_msg h m b
      deserialize_deregister_process_manager_msg b')
      ≡ done m
unfolding serialize_deregister_process_manager_msg deserialize_deregister_process_manager_msg
    deregister_process_manager_msg_of directives
deserialize-serialize_deregister_process_manager_msg h m b v w size =
    read_back "%d %d %d %s %d \n" "%d %d %d %s %d"
      (number_space v.source (
        number_space v.message (
          number_space w.pid
            (token_space w.hostname w.hostname_fits (number w.error_code refl finished)))))
      (omega arith) deregister_process_manager_msg_of b (omega arith)
