-- ===== src/Protocol/Dynamic.antt =====
-- The launch of a dynamic process manager and its output, two messages with a payload
-- (src/network/protocol.c).
use libdynpm.Base.{
  ℕ, ◌+◌, ◌<◌, ◌≡◌, refl, ◌∙◌, ap, [], ◌∷◌, List, Option, none, some, length, arith,
}
use libdynpm.Text.Chars.{Bytes, IsToken, codes}
use libdynpm.Text.Outcome.{Outcome, done, unset, fault, ◌>>=◌, ◌>>◌}
use libdynpm.Text.Format.{Value, num, str, directives}
use libdynpm.Text.Scan.{word, chars}
use libdynpm.Text.RoundTrip.{Agree, number_space, token_space, number, blank, finished}
use libdynpm.Text.Buffer.{Buffer, sprintf, sscanf}
use libdynpm.Protocol.Frame.{max_message_size, IsWord, IsMessageBuffer}
use libdynpm.Protocol.Header.{Header, IsHeader}
use libdynpm.Protocol.Payload.{
  payload_offset, check_text, attach, detach, IsPayload, frame, frame_too_large,
}

-- `dynpm_dynamic_pm_launch_msg_t`; a null `payload` is `none`.
pub record DynamicPmLaunchMsg : Type 0 where
  pub id : ℕ
  pub type : ℕ
  pub payload_bytes : ℕ
  pub payload : Option Bytes

pub record IsDynamicPmLaunchMsg (m : DynamicPmLaunchMsg) : Type 0 where
  pub id : IsWord m.id
  pub type : IsWord m.type
  pub payload_bytes : IsWord m.payload_bytes

-- The values that the text of the message holds.
abbrev dynamic_pm_launch_msg_values : Header → DynamicPmLaunchMsg → List Value
dynamic_pm_launch_msg_values h m =
    num h.source_type ∷ num h.message_type ∷ num m.id ∷ num m.type ∷ num m.payload_bytes ∷ []

-- `dynpm_serialize_dynamic_pm_launch_msg`
unfoldable pub serialize_dynamic_pm_launch_msg :
    Header → DynamicPmLaunchMsg → Buffer → Outcome Buffer
serialize_dynamic_pm_launch_msg h m b = do
  b₁ ←
      sprintf "%d %d %d %d %d \n"
        (num h.source_type ∷ num h.message_type ∷ num m.id ∷ num m.type ∷ num m.payload_bytes ∷ [])
        b
  check_text b₁
  attach m.payload_bytes m.payload b₁

dynamic_pm_launch_msg_of : List Value → Outcome DynamicPmLaunchMsg
dynamic_pm_launch_msg_of (num source ∷ num message ∷ num id ∷ num type ∷ num payload_bytes ∷ []) =
    done (record { id = id; type = type; payload_bytes = payload_bytes; payload = none })
dynamic_pm_launch_msg_of _ = unset

-- `dynpm_deserialize_dynamic_pm_launch_msg`
unfoldable pub deserialize_dynamic_pm_launch_msg : Buffer → Outcome DynamicPmLaunchMsg
unfolding dynamic_pm_launch_msg_of
deserialize_dynamic_pm_launch_msg b = do
  vs ← sscanf "%d %d %d %d %d" (word ∷ word ∷ word ∷ word ∷ word ∷ []) b
  m ← dynamic_pm_launch_msg_of vs
  check_text b
  p ← detach m.payload_bytes b
  done (record m { payload = p })

dynamic_pm_launch_msg-Agree :
    {h : Header} {m : DynamicPmLaunchMsg}
    → IsHeader h
    → IsDynamicPmLaunchMsg m
    → Agree
        (directives (codes "%d %d %d %d %d \n"))
        (directives (codes "%d %d %d %d %d"))
        (word ∷ word ∷ word ∷ word ∷ word ∷ [])
        (dynamic_pm_launch_msg_values h m)
unfolding directives
dynamic_pm_launch_msg-Agree v w = number_space v.source (
    number_space v.message
      (number_space w.id (number_space w.type (number w.payload_bytes refl finished))))

-- In a buffer of the message size, a launch request with a header is written, and read back with
-- its payload, if the numbers are 32-bit words and the payload is absent with length 0, or is that
-- many bytes, more than 0 and at most 3840.
pub deserialize-serialize_dynamic_pm_launch_msg :
    (h : Header) (m : DynamicPmLaunchMsg) (b : Buffer)
    → IsHeader h
    → IsDynamicPmLaunchMsg m
    → IsPayload m.payload_bytes m.payload
    → IsMessageBuffer b
    → (do b' ← serialize_dynamic_pm_launch_msg h m b; deserialize_dynamic_pm_launch_msg b') ≡ done m
unfolding serialize_dynamic_pm_launch_msg deserialize_dynamic_pm_launch_msg dynamic_pm_launch_msg_of
deserialize-serialize_dynamic_pm_launch_msg h m b v w fits size =
    let (b', written, scanned, checked, found) =
      frame "%d %d %d %d %d \n" "%d %d %d %d %d" (dynamic_pm_launch_msg-Agree v w)
        (unfold directives in omega arith) (unfold directives in omega arith) m.payload_bytes
        m.payload b size fits in
    ap (λ (r : Outcome Buffer). r >>= deserialize_dynamic_pm_launch_msg) written
    ∙ rw (scanned, checked, found)

-- A launch request with more than 3840 bytes of payload, as many as it says, is copied past the end
-- of a buffer of the message size.
pub serialize_dynamic_pm_launch_msg_too_large :
    (h : Header) (m : DynamicPmLaunchMsg) (p : Bytes) (b : Buffer)
    → IsHeader h
    → IsDynamicPmLaunchMsg m
    → m.payload ≡ some p
    → length p ≡ m.payload_bytes
    → max_message_size < payload_offset + m.payload_bytes
    → IsMessageBuffer b
    → serialize_dynamic_pm_launch_msg h m b ≡ fault
unfolding serialize_dynamic_pm_launch_msg
serialize_dynamic_pm_launch_msg_too_large h m p b v w e n large size = rw e (
    frame_too_large "%d %d %d %d %d \n" "%d %d %d %d %d" (dynamic_pm_launch_msg-Agree v w)
      (unfold directives in omega arith) (unfold directives in omega arith) m.payload_bytes p b size
      n large)

-- `dynpm_dynamic_io_out_msg_t`; a null `payload` is `none`.
pub record DynamicIoOutMsg : Type 0 where
  pub id : ℕ
  pub host : Bytes
  pub payload_bytes : ℕ
  pub payload : Option Bytes

pub record IsDynamicIoOutMsg (m : DynamicIoOutMsg) : Type 0 where
  pub id : IsWord m.id
  pub host : IsToken m.host
  pub host_fits : length m.host < 200
  pub payload_bytes : IsWord m.payload_bytes

-- The values that the text of the message holds.
abbrev dynamic_io_out_msg_values : Header → DynamicIoOutMsg → List Value
dynamic_io_out_msg_values h m =
    num h.source_type ∷ num h.message_type ∷ num m.id ∷ str m.host ∷ num m.payload_bytes ∷ []

-- `dynpm_serialize_dynamic_io_out_msg`
unfoldable pub serialize_dynamic_io_out_msg : Header → DynamicIoOutMsg → Buffer → Outcome Buffer
serialize_dynamic_io_out_msg h m b = do
  b₁ ←
      sprintf "%d %d %d %s %d \n"
        (num h.source_type ∷ num h.message_type ∷ num m.id ∷ str m.host ∷ num m.payload_bytes ∷ [])
        b
  check_text b₁
  attach m.payload_bytes m.payload b₁

dynamic_io_out_msg_of : List Value → Outcome DynamicIoOutMsg
dynamic_io_out_msg_of (num source ∷ num message ∷ num id ∷ str host ∷ num payload_bytes ∷ []) =
    done (record { id = id; host = host; payload_bytes = payload_bytes; payload = none })
dynamic_io_out_msg_of _ = unset

-- `dynpm_deserialize_dynamic_io_out_msg`
unfoldable pub deserialize_dynamic_io_out_msg : Buffer → Outcome DynamicIoOutMsg
unfolding dynamic_io_out_msg_of
deserialize_dynamic_io_out_msg b = do
  vs ← sscanf "%d %d %d %s %d " (word ∷ word ∷ word ∷ chars 256 ∷ word ∷ []) b
  m ← dynamic_io_out_msg_of vs
  check_text b
  p ← detach m.payload_bytes b
  done (record m { payload = p })

dynamic_io_out_msg-Agree :
    {h : Header} {m : DynamicIoOutMsg}
    → IsHeader h
    → IsDynamicIoOutMsg m
    → Agree
        (directives (codes "%d %d %d %s %d \n"))
        (directives (codes "%d %d %d %s %d "))
        (word ∷ word ∷ word ∷ chars 256 ∷ word ∷ [])
        (dynamic_io_out_msg_values h m)
unfolding directives
dynamic_io_out_msg-Agree v w = number_space v.source (
    number_space v.message (
      number_space w.id (
        token_space w.host (omega (arith, w.host_fits))
          (number w.payload_bytes refl (blank refl refl finished)))))

-- In a buffer of the message size, a piece of output with a header is written, and read back with
-- its payload, if the numbers are 32-bit words, the host is one token of less than 200 bytes, and
-- the payload is absent with length 0, or is that many bytes, more than 0 and at most 3840.
pub deserialize-serialize_dynamic_io_out_msg :
    (h : Header) (m : DynamicIoOutMsg) (b : Buffer)
    → IsHeader h
    → IsDynamicIoOutMsg m
    → IsPayload m.payload_bytes m.payload
    → IsMessageBuffer b
    → (do b' ← serialize_dynamic_io_out_msg h m b; deserialize_dynamic_io_out_msg b') ≡ done m
unfolding serialize_dynamic_io_out_msg deserialize_dynamic_io_out_msg dynamic_io_out_msg_of
deserialize-serialize_dynamic_io_out_msg h m b v w fits size =
    let (b', written, scanned, checked, found) =
      frame "%d %d %d %s %d \n" "%d %d %d %s %d " (dynamic_io_out_msg-Agree v w)
        (unfold directives in omega arith) (unfold directives in omega arith) m.payload_bytes
        m.payload b size fits in
    ap (λ (r : Outcome Buffer). r >>= deserialize_dynamic_io_out_msg) written
    ∙ rw (scanned, checked, found)
