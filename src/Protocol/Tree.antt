-- ===== src/Protocol/Tree.antt =====
-- The messages of the overlay network (src/network/protocol.c).
use libdynpm.Base.{ℕ, ◌<◌, ◌≡◌, [], ◌∷◌, List, length, arith}
use libdynpm.Text.Chars.{Bytes, IsToken}
use libdynpm.Text.Outcome.{Outcome, done, unset, ◌>>=◌}
use libdynpm.Text.Format.{Value, num, str, directives}
use libdynpm.Text.Scan.{word, chars}
use libdynpm.Text.RoundTrip.{number_space, number, token, finished}
use libdynpm.Text.Buffer.{Buffer, sprintf, sscanf}
use libdynpm.Protocol.Frame.{IsWord, IsMessageBuffer, read_back}
use libdynpm.Protocol.Header.{Header, IsHeader}

-- `dynpm_create_tbon_msg_t`
pub record CreateTbonMsg : Type 0 where
  pub id : ℕ
  pub degree : ℕ
  pub total : ℕ
  pub nodes : Bytes

-- Every number is a 32-bit word, and every text is one token that fits the array it is read to.
pub record IsCreateTbonMsg (m : CreateTbonMsg) : Type 0 where
  pub id : IsWord m.id
  pub degree : IsWord m.degree
  pub total : IsWord m.total
  pub nodes : IsToken m.nodes
  pub nodes_fits : length m.nodes < 256

-- `dynpm_serialize_create_tbon_msg`
unfoldable pub serialize_create_tbon_msg : Header → CreateTbonMsg → Buffer → Outcome Buffer
serialize_create_tbon_msg h m b =
    sprintf "%d %d %d %d %d %s"
      (num h.source_type
        ∷ num h.message_type
        ∷ num m.id
        ∷ num m.degree
        ∷ num m.total
        ∷ str m.nodes
        ∷ [])
      b

create_tbon_msg_of : List Value → Outcome CreateTbonMsg
create_tbon_msg_of (num source ∷ num message ∷ num id ∷ num degree ∷ num total ∷ str nodes ∷ []) =
    done (record { id = id; degree = degree; total = total; nodes = nodes })
create_tbon_msg_of _ = unset

-- `dynpm_deserialize_create_tbon_msg`
unfoldable pub deserialize_create_tbon_msg : Buffer → Outcome CreateTbonMsg
unfolding create_tbon_msg_of
deserialize_create_tbon_msg b = do
  vs ← sscanf "%d %d %d %d %d %s" (word ∷ word ∷ word ∷ word ∷ word ∷ chars 256 ∷ []) b
  create_tbon_msg_of vs

-- In a buffer of the message size, a request to create the tree with a header is written, and read
-- back as it was, if its numbers and those of the header are 32-bit words and each text is one
-- token that fits its array.
pub deserialize-serialize_create_tbon_msg :
    (h : Header) (m : CreateTbonMsg) (b : Buffer)
    → IsHeader h
    → IsCreateTbonMsg m
    → IsMessageBuffer b
    → (do b' ← serialize_create_tbon_msg h m b; deserialize_create_tbon_msg b') ≡ done m
unfolding serialize_create_tbon_msg deserialize_create_tbon_msg create_tbon_msg_of directives
deserialize-serialize_create_tbon_msg h m b v w size =
    read_back "%d %d %d %d %d %s" "%d %d %d %d %d %s"
      (number_space v.source (
        number_space v.message (
          number_space w.id (
            number_space w.degree
              (number_space w.total (token w.nodes w.nodes_fits tt finished))))))
      (omega arith) create_tbon_msg_of b (omega arith)

-- `dynpm_ready_msg_t`
pub record ReadyMsg : Type 0 where
  pub id : ℕ
  pub subtree_ready_count : ℕ
  pub error_code : ℕ

-- Every number is a 32-bit word, and every text is one token that fits the array it is read to.
pub record IsReadyMsg (m : ReadyMsg) : Type 0 where
  pub id : IsWord m.id
  pub subtree_ready_count : IsWord m.subtree_ready_count
  pub error_code : IsWord m.error_code

-- `dynpm_serialize_ready_msg`
unfoldable pub serialize_ready_msg : Header → ReadyMsg → Buffer → Outcome Buffer
serialize_ready_msg h m b =
    sprintf "%d %d %d %d %d"
      (num h.source_type
        ∷ num h.message_type
        ∷ num m.id
        ∷ num m.subtree_ready_count
        ∷ num m.error_code
        ∷ [])
      b

ready_msg_of : List Value → Outcome ReadyMsg
ready_msg_of (num source ∷ num message ∷ num id ∷ num subtree_ready_count ∷ num error_code ∷ []) =
    done (record { id = id; subtree_ready_count = subtree_ready_count; error_code = error_code })
ready_msg_of _ = unset

-- `dynpm_deserialize_ready_msg`
unfoldable pub deserialize_ready_msg : Buffer → Outcome ReadyMsg
unfolding ready_msg_of
deserialize_ready_msg b = do
  vs ← sscanf "%d %d %d %d %d" (word ∷ word ∷ word ∷ word ∷ word ∷ []) b
  ready_msg_of vs

-- In a buffer of the message size, a report that a subtree is ready with a header is written, and
-- read back as it was, if its numbers and those of the header are 32-bit words and each text is one
-- token that fits its array.
pub deserialize-serialize_ready_msg :
    (h : Header) (m : ReadyMsg) (b : Buffer)
    → IsHeader h
    → IsReadyMsg m
    → IsMessageBuffer b
    → (do b' ← serialize_ready_msg h m b; deserialize_ready_msg b') ≡ done m
unfolding serialize_ready_msg deserialize_ready_msg ready_msg_of directives
deserialize-serialize_ready_msg h m b v w size =
    read_back "%d %d %d %d %d" "%d %d %d %d %d"
      (number_space v.source (
        number_space v.message (
          number_space w.id
            (number_space w.subtree_ready_count (number w.error_code tt finished)))))
      (omega arith) ready_msg_of b (omega arith)

-- The three messages of this shape, which the code casts to it:
-- `dynpm_serialize_ready_tbon_msg` and `dynpm_deserialize_ready_tbon_msg`,
unfoldable pub serialize_ready_tbon_msg : Header → ReadyMsg → Buffer → Outcome Buffer
serialize_ready_tbon_msg = serialize_ready_msg

unfoldable pub deserialize_ready_tbon_msg : Buffer → Outcome ReadyMsg
deserialize_ready_tbon_msg = deserialize_ready_msg

-- `dynpm_serialize_ready_dynamic_pm_msg` and `dynpm_deserialize_ready_dynamic_pm_msg`,
unfoldable pub serialize_ready_dynamic_pm_msg : Header → ReadyMsg → Buffer → Outcome Buffer
serialize_ready_dynamic_pm_msg = serialize_ready_msg

unfoldable pub deserialize_ready_dynamic_pm_msg : Buffer → Outcome ReadyMsg
deserialize_ready_dynamic_pm_msg = deserialize_ready_msg

-- `dynpm_serialize_processes_done_msg` and `dynpm_deserialize_processes_done_msg`.
unfoldable pub serialize_processes_done_msg : Header → ReadyMsg → Buffer → Outcome Buffer
serialize_processes_done_msg = serialize_ready_msg

unfoldable pub deserialize_processes_done_msg : Buffer → Outcome ReadyMsg
deserialize_processes_done_msg = deserialize_ready_msg
