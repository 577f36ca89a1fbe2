-- ===== src/Protocol/Offer.antt =====
-- The resource offer (src/network/protocol.c), whose two times are 64-bit and go through `%d`.
use libdynpm.Base.{ℕ, ◌+◌, ◌*◌, ◌/◌, ◌%◌, ◌^◌, ◌<◌, ◌≡◌, [], ◌∷◌, List, arith}
use libdynpm.Text.Outcome.{Outcome, done, unset, ◌>>=◌}
use libdynpm.Text.Format.{Value, num, directives}
use libdynpm.Text.Scan.{word}
use libdynpm.Text.RoundTrip.{number_space, number, finished}
use libdynpm.Text.Buffer.{Buffer, sprintf, sscanf}
use libdynpm.Protocol.Frame.{IsWord, IsMessageBuffer, read_back}
use libdynpm.Protocol.Header.{Header, IsHeader}

-- `dynpm_resource_offer_msg_t`
pub record ResourceOfferMsg : Type 0 where
  pub application_index : ℕ
  pub partition_index : ℕ
  pub node_count : ℕ
  pub creation_time : ℕ  -- time_t, a 64-bit pattern
  pub end_time : ℕ  -- time_t

pub record IsResourceOfferMsg (m : ResourceOfferMsg) : Type 0 where
  pub application_index : IsWord m.application_index
  pub partition_index : IsWord m.partition_index
  pub node_count : IsWord m.node_count
  pub creation_time : m.creation_time < 2 ^ 64
  pub end_time : m.end_time < 2 ^ 64

-- What `%d` takes of a 64-bit argument: its low half.
abbrev pub low_half : ℕ → ℕ
low_half t = t % 2 ^ 32

-- A 64-bit field, after an `int` is stored at its address on a little-endian machine.
abbrev pub store_low : ℕ → ℕ → ℕ
store_low field w = field / 2 ^ 32 * 2 ^ 32 + w

-- `dynpm_serialize_resource_offer_msg`
unfoldable pub serialize_resource_offer_msg : Header → ResourceOfferMsg → Buffer → Outcome Buffer
serialize_resource_offer_msg h m b =
    sprintf "%d %d %d %d %d %d %d"
      (num h.source_type
        ∷ num h.message_type
        ∷ num m.application_index
        ∷ num m.partition_index
        ∷ num m.node_count
        ∷ num (low_half m.creation_time)
        ∷ num (low_half m.end_time)
        ∷ [])
      b

-- `malloc` gives the message with its fields as `fresh` has them; the times keep their upper halves.
resource_offer_msg_of : ResourceOfferMsg → List Value → Outcome ResourceOfferMsg
resource_offer_msg_of fresh
      (num source
        ∷ num message
        ∷ num application_index
        ∷ num partition_index
        ∷ num node_count
        ∷ num creation_time
        ∷ num end_time
        ∷ []) =
    done (record {
      application_index = application_index;
      partition_index = partition_index;
      node_count = node_count;
      creation_time = store_low fresh.creation_time creation_time;
      end_time = store_low fresh.end_time end_time;
    })
resource_offer_msg_of fresh _ = unset

-- `dynpm_deserialize_resource_offer_msg`, with the memory that `malloc` returns
unfoldable pub deserialize_resource_offer_msg : ResourceOfferMsg → Buffer → Outcome ResourceOfferMsg
unfolding resource_offer_msg_of
deserialize_resource_offer_msg fresh b = do
  vs ← sscanf "%d %d %d %d %d %d %d" (word ∷ word ∷ word ∷ word ∷ word ∷ word ∷ word ∷ []) b
  resource_offer_msg_of fresh vs

-- A resource offer is read back with its indices and its node count, and with the low halves of its
-- two times; the upper halves of the times are those of the memory that `malloc` returned. The numbers
-- of the message and the header are words, the times are below 2 ^ 64, and the buffer has the message
-- size.
pub deserialize-serialize_resource_offer_msg :
    (h : Header) (m fresh : ResourceOfferMsg) (b : Buffer)
    → IsHeader h
    → IsResourceOfferMsg m
    → IsMessageBuffer b
    → (do b' ← serialize_resource_offer_msg h m b; deserialize_resource_offer_msg fresh b')
      ≡ done (record m {
        creation_time = store_low fresh.creation_time (low_half m.creation_time);
        end_time = store_low fresh.end_time (low_half m.end_time);
      })
unfolding serialize_resource_offer_msg deserialize_resource_offer_msg resource_offer_msg_of
    directives
deserialize-serialize_resource_offer_msg h m fresh b v w size =
    read_back "%d %d %d %d %d %d %d" "%d %d %d %d %d %d %d"
      (number_space v.source (
        number_space v.message (
          number_space w.application_index (
            number_space w.partition_index (
              number_space w.node_count
                (number_space (omega arith) (number (omega arith) tt finished)))))))
      (omega arith) (resource_offer_msg_of fresh) b (omega arith)
