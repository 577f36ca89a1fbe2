-- ===== src/Protocol/Reallocation.antt =====
-- The start and the end of a reallocation (src/network/protocol.c).
use libdynpm.Base.{ℕ, ◌<◌, ◌≡◌, refl, [], ◌∷◌, List, length, arith}
use libdynpm.Text.Chars.{Bytes, IsToken}
use libdynpm.Text.Outcome.{Outcome, done, unset, ◌>>=◌}
use libdynpm.Text.Format.{Value, num, str, directives}
use libdynpm.Text.Scan.{word, chars}
use libdynpm.Text.RoundTrip.{number_space, token_space, number, token, finished}
use libdynpm.Text.Buffer.{Buffer, sprintf, sscanf}
use libdynpm.Protocol.Frame.{IsWord, IsMessageBuffer, read_back}
use libdynpm.Protocol.Header.{Header, IsHeader}

-- `dynpm_reallocation_start_msg_t`
pub record ReallocationStartMsg : Type 0 where
  pub application_index : ℕ
  pub partition_index : ℕ
  pub type : ℕ
  pub current_node_count : ℕ
  pub current_nodes : Bytes
  pub delta_node_count : ℕ
  pub delta_nodes : Bytes
  pub updated_node_count : ℕ
  pub updated_nodes : Bytes

-- Every number is a 32-bit word, and every text is one token that fits the array it is read to.
pub record IsReallocationStartMsg (m : ReallocationStartMsg) : Type 0 where
  pub application_index : IsWord m.application_index
  pub partition_index : IsWord m.partition_index
  pub type : IsWord m.type
  pub current_node_count : IsWord m.current_node_count
  pub current_nodes : IsToken m.current_nodes
  pub current_nodes_fits : length m.current_nodes < 1024
  pub delta_node_count : IsWord m.delta_node_count
  pub delta_nodes : IsToken m.delta_nodes
  pub delta_nodes_fits : length m.delta_nodes < 1024
  pub updated_node_count : IsWord m.updated_node_count
  pub updated_nodes : IsToken m.updated_nodes
  pub updated_nodes_fits : length m.updated_nodes < 1024

-- `dynpm_serialize_reallocation_start_msg`
unfoldable pub serialize_reallocation_start_msg :
    Header → ReallocationStartMsg → Buffer → Outcome Buffer
serialize_reallocation_start_msg h m b =
    sprintf "%d %d %d %d %d %d %s %d %s %d %s\n"
      (num h.source_type
        ∷ num h.message_type
        ∷ num m.application_index
        ∷ num m.partition_index
        ∷ num m.type
        ∷ num m.current_node_count
        ∷ str m.current_nodes
        ∷ num m.delta_node_count
        ∷ str m.delta_nodes
        ∷ num m.updated_node_count
        ∷ str m.updated_nodes
        ∷ [])
      b

reallocation_start_msg_of : List Value → Outcome ReallocationStartMsg
reallocation_start_msg_of
      (num source
        ∷ num message
        ∷ num application_index
        ∷ num partition_index
        ∷ num type
        ∷ num current_node_count
        ∷ str current_nodes
        ∷ num delta_node_count
        ∷ str delta_nodes
        ∷ num updated_node_count
        ∷ str updated_nodes
        ∷ []) =
    done (record {
      application_index = application_index;
      partition_index = partition_index;
      type = type;
      current_node_count = current_node_count;
      current_nodes = current_nodes;
      delta_node_count = delta_node_count;
      delta_nodes = delta_nodes;
      updated_node_count = updated_node_count;
      updated_nodes = updated_nodes;
    })
reallocation_start_msg_of _ = unset

-- `dynpm_deserialize_reallocation_start_msg`
unfoldable pub deserialize_reallocation_start_msg : Buffer → Outcome ReallocationStartMsg
unfolding reallocation_start_msg_of
deserialize_reallocation_start_msg b = do
  vs ←
      sscanf "%d %d %d %d %d %d %s %d %s %d %s"
        (word
          ∷ word
          ∷ word
          ∷ word
          ∷ word
          ∷ word
          ∷ chars 1024
          ∷ word
          ∷ chars 1024
          ∷ word
          ∷ chars 1024
          ∷ [])
        b
  reallocation_start_msg_of vs

-- In a buffer of the message size, the start of a reallocation with a header is written, and read
-- back as it was, if its numbers and those of the header are 32-bit words and each text is one
-- token that fits its array.
pub deserialize-serialize_reallocation_start_msg :
    (h : Header) (m : ReallocationStartMsg) (b : Buffer)
    → IsHeader h
    → IsReallocationStartMsg m
    → IsMessageBuffer b
    → (do b' ← serialize_reallocation_start_msg h m b; deserialize_reallocation_start_msg b')
      ≡ done m
unfolding serialize_reallocation_start_msg deserialize_reallocation_start_msg
    reallocation_start_msg_of directives
deserialize-serialize_reallocation_start_msg h m b v w size =
    read_back "%d %d %d %d %d %d %s %d %s %d %s\n" "%d %d %d %d %d %d %s %d %s %d %s"
      (number_space v.source (
        number_space v.message (
          number_space w.application_index (
            number_space w.partition_index (
              number_space w.type (
                number_space w.current_node_count (
                  token_space w.current_nodes w.current_nodes_fits (
                    number_space w.delta_node_count (
                      token_space w.delta_nodes w.delta_nodes_fits (
                        number_space w.updated_node_count
                          (token w.updated_nodes w.updated_nodes_fits refl finished)))))))))))
      (omega arith) reallocation_start_msg_of b (omega arith)

-- `dynpm_reallocation_complete_msg_t`
pub record ReallocationCompleteMsg : Type 0 where
  pub application_index : ℕ
  pub partition_index : ℕ
  pub type : ℕ
  pub node_count : ℕ
  pub nodes : Bytes
  pub status_code : ℕ

-- Every number is a 32-bit word, and every text is one token that fits the array it is read to.
pub record IsReallocationCompleteMsg (m : ReallocationCompleteMsg) : Type 0 where
  pub application_index : IsWord m.application_index
  pub partition_index : IsWord m.partition_index
  pub type : IsWord m.type
  pub node_count : IsWord m.node_count
  pub nodes : IsToken m.nodes
  pub nodes_fits : length m.nodes < 256
  pub status_code : IsWord m.status_code

-- `dynpm_serialize_reallocation_complete_msg`
unfoldable pub serialize_reallocation_complete_msg :
    Header → ReallocationCompleteMsg → Buffer → Outcome Buffer
serialize_reallocation_complete_msg h m b =
    sprintf "%d %d %d %d %d %d %s %d\n"
      (num h.source_type
        ∷ num h.message_type
        ∷ num m.application_index
        ∷ num m.partition_index
        ∷ num m.type
        ∷ num m.node_count
        ∷ str m.nodes
        ∷ num m.status_code
        ∷ [])
      b

reallocation_complete_msg_of : List Value → Outcome ReallocationCompleteMsg
reallocation_complete_msg_of
      (num source
        ∷ num message
        ∷ num application_index
        ∷ num partition_index
        ∷ num type
        ∷ num node_count
        ∷ str nodes
        ∷ num status_code
        ∷ []) =
    done (record {
      application_index = application_index;
      partition_index = partition_index;
      type = type;
      node_count = node_count;
      nodes = nodes;
      status_code = status_code;
    })
reallocation_complete_msg_of _ = unset

-- `dynpm_deserialize_reallocation_complete_msg`
unfoldable pub deserialize_reallocation_complete_msg : Buffer → Outcome ReallocationCompleteMsg
unfolding reallocation_complete_msg_of
deserialize_reallocation_complete_msg b = do
  vs ←
      sscanf "%d %d %d %d %d %d %s %d"
        (word ∷ word ∷ word ∷ word ∷ word ∷ word ∷ chars 256 ∷ word ∷ []) b
  reallocation_complete_msg_of vs

-- In a buffer of the message size, the end of a reallocation with a header is written, and read
-- back as it was, if its numbers and those of the header are 32-bit words and each text is one
-- token that fits its array.
pub deserialize-serialize_reallocation_complete_msg :
    (h : Header) (m : ReallocationCompleteMsg) (b : Buffer)
    → IsHeader h
    → IsReallocationCompleteMsg m
    → IsMessageBuffer b
    → (do b' ← serialize_reallocation_complete_msg h m b; deserialize_reallocation_complete_msg b')
      ≡ done m
unfolding serialize_reallocation_complete_msg deserialize_reallocation_complete_msg
    reallocation_complete_msg_of directives
deserialize-serialize_reallocation_complete_msg h m b v w size =
    read_back "%d %d %d %d %d %d %s %d\n" "%d %d %d %d %d %d %s %d"
      (number_space v.source (
        number_space v.message (
          number_space w.application_index (
            number_space w.partition_index (
              number_space w.type (
                number_space w.node_count
                  (token_space w.nodes w.nodes_fits (number w.status_code refl finished))))))))
      (omega arith) reallocation_complete_msg_of b (omega arith)
