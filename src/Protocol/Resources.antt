-- ===== src/Protocol/Resources.antt =====
-- The request for an allocation (src/network/protocol.c).
use libdynpm.Base.{ℕ, ◌≡◌, refl, [], ◌∷◌, List, arith}
use libdynpm.Text.Outcome.{Outcome, done, unset, ◌>>=◌}
use libdynpm.Text.Format.{Value, num, directives}
use libdynpm.Text.Scan.{word}
use libdynpm.Text.RoundTrip.{number_space, number, blank, finished}
use libdynpm.Text.Buffer.{Buffer, sprintf, sscanf}
use libdynpm.Protocol.Frame.{IsWord, IsMessageBuffer, read_back}
use libdynpm.Protocol.Header.{Header, IsHeader}

-- `dynpm_allocation_request_msg_t`
pub record AllocationRequestMsg : Type 0 where
  pub application_index : ℕ
  pub partition_index : ℕ
  pub type : ℕ
  pub node_count : ℕ

-- Every number is a 32-bit word, and every text is one token that fits the array it is read to.
pub record IsAllocationRequestMsg (m : AllocationRequestMsg) : Type 0 where
  pub application_index : IsWord m.application_index
  pub partition_index : IsWord m.partition_index
  pub type : IsWord m.type
  pub node_count : IsWord m.node_count

-- `dynpm_serialize_allocation_request_msg`
unfoldable pub serialize_allocation_request_msg :
    Header → AllocationRequestMsg → Buffer → Outcome Buffer
serialize_allocation_request_msg h m b =
    sprintf "%d %d %d %d %d %d \n"
      (num h.source_type
        ∷ num h.message_type
        ∷ num m.application_index
        ∷ num m.partition_index
        ∷ num m.type
        ∷ num m.node_count
        ∷ [])
      b

allocation_request_msg_of : List Value → Outcome AllocationRequestMsg
allocation_request_msg_of
      (num source
        ∷ num message
        ∷ num application_index
        ∷ num partition_index
        ∷ num type
        ∷ num node_count
        ∷ []) =
    done (record {
      application_index = application_index;
      partition_index = partition_index;
      type = type;
      node_count = node_count;
    })
allocation_request_msg_of _ = unset

-- `dynpm_deserialize_allocation_request_msg`
unfoldable pub deserialize_allocation_request_msg : Buffer → Outcome AllocationRequestMsg
unfolding allocation_request_msg_of
deserialize_allocation_request_msg b = do
  vs ← sscanf "%d %d %d %d %d %d " (word ∷ word ∷ word ∷ word ∷ word ∷ word ∷ []) b
  allocation_request_msg_of vs

-- In a buffer of the message size, an allocation request with a header is written, and read back as
-- it was, if its numbers and those of the header are 32-bit words and each text is one token that
-- fits its array.
pub deserialize-serialize_allocation_request_msg :
    (h : Header) (m : AllocationRequestMsg) (b : Buffer)
    → IsHeader h
    → IsAllocationRequestMsg m
    → IsMessageBuffer b
    → (do b' ← serialize_allocation_request_msg h m b; deserialize_allocation_request_msg b')
      ≡ done m
unfolding serialize_allocation_request_msg deserialize_allocation_request_msg
    allocation_request_msg_of directives
deserialize-serialize_allocation_request_msg h m b v w size =
    read_back "%d %d %d %d %d %d \n" "%d %d %d %d %d %d "
      (number_space v.source (
        number_space v.message (
          number_space w.application_index (
            number_space w.partition_index
              (number_space w.type (number w.node_count refl (blank refl refl finished)))))))
      (omega arith) allocation_request_msg_of b (omega arith)
