-- ===== src/Protocol/Report.antt =====
-- The report of the data of a process, with a payload (src/network/protocol.c).
use libdynpm.Base.{ℕ, ◌≡◌, refl, ◌∙◌, ap, [], ◌∷◌, List, Option, none, arith}
use libdynpm.Text.Chars.{Bytes, codes}
use libdynpm.Text.Outcome.{Outcome, done, unset, ◌>>=◌, ◌>>◌}
use libdynpm.Text.Format.{Value, num, directives}
use libdynpm.Text.Scan.{word}
use libdynpm.Text.RoundTrip.{Agree, number_space, number, finished}
use libdynpm.Text.Buffer.{Buffer, sprintf, sscanf}
use libdynpm.Protocol.Frame.{IsWord, IsMessageBuffer}
use libdynpm.Protocol.Header.{Header, IsHeader}
use libdynpm.Protocol.Payload.{check_text, attach, detach, IsPayload, frame}

-- `dynpm_report_process_data_msg_t`; a null `payload` is `none`.
pub record ReportProcessDataMsg : Type 0 where
  pub id : ℕ
  pub job_index : ℕ
  pub application_index : ℕ
  pub malleability_mode : ℕ
  pub payload_bytes : ℕ
  pub payload : Option Bytes

pub record IsReportProcessDataMsg (m : ReportProcessDataMsg) : Type 0 where
  pub id : IsWord m.id
  pub job_index : IsWord m.job_index
  pub application_index : IsWord m.application_index
  pub malleability_mode : IsWord m.malleability_mode
  pub payload_bytes : IsWord m.payload_bytes

-- The values that the text of the message holds.
abbrev report_process_data_msg_values : Header → ReportProcessDataMsg → List Value
report_process_data_msg_values h m =
    num h.source_type
    ∷ num h.message_type
    ∷ num m.id
    ∷ num m.job_index
    ∷ num m.application_index
    ∷ num m.malleability_mode
    ∷ num m.payload_bytes
    ∷ []

-- `dynpm_serialize_report_process_data_msg`
unfoldable pub serialize_report_process_data_msg :
    Header → ReportProcessDataMsg → Buffer → Outcome Buffer
serialize_report_process_data_msg h m b = do
  b₁ ←
      sprintf "%d %d %d %d %d %d %d\n"
        (num h.source_type
          ∷ num h.message_type
          ∷ num m.id
          ∷ num m.job_index
          ∷ num m.application_index
          ∷ num m.malleability_mode
          ∷ num m.payload_bytes
          ∷ [])
        b
  check_text b₁
  attach m.payload_bytes m.payload b₁

report_process_data_msg_of : List Value → Outcome ReportProcessDataMsg
report_process_data_msg_of
      (num source
        ∷ num message
        ∷ num id
        ∷ num job_index
        ∷ num application_index
        ∷ num malleability_mode
        ∷ num payload_bytes
        ∷ []) =
    done (record {
      id = id;
      job_index = job_index;
      application_index = application_index;
      malleability_mode = malleability_mode;
      payload_bytes = payload_bytes;
      payload = none;
    })
report_process_data_msg_of _ = unset

-- `dynpm_deserialize_report_process_data_msg`
unfoldable pub deserialize_report_process_data_msg : Buffer → Outcome ReportProcessDataMsg
unfolding report_process_data_msg_of
deserialize_report_process_data_msg b = do
  vs ← sscanf "%d %d %d %d %d %d %d" (word ∷ word ∷ word ∷ word ∷ word ∷ word ∷ word ∷ []) b
  m ← report_process_data_msg_of vs
  check_text b
  p ← detach m.payload_bytes b
  done (record m { payload = p })

report_process_data_msg-Agree :
    {h : Header} {m : ReportProcessDataMsg}
    → IsHeader h
    → IsReportProcessDataMsg m
    → Agree
        (directives (codes "%d %d %d %d %d %d %d\n"))
        (directives (codes "%d %d %d %d %d %d %d"))
        (word ∷ word ∷ word ∷ word ∷ word ∷ word ∷ word ∷ [])
        (report_process_data_msg_values h m)
unfolding directives
report_process_data_msg-Agree v w = number_space v.source (
    number_space v.message (
      number_space w.id (
        number_space w.job_index (
          number_space w.application_index
            (number_space w.malleability_mode (number w.payload_bytes refl finished))))))

-- In a buffer of the message size, a report of process data with a header is written, and read back
-- with its payload, if the numbers are 32-bit words and the payload is absent with length 0, or is
-- that many bytes, more than 0 and at most 3840.
pub deserialize-serialize_report_process_data_msg :
    (h : Header) (m : ReportProcessDataMsg) (b : Buffer)
    → IsHeader h
    → IsReportProcessDataMsg m
    → IsPayload m.payload_bytes m.payload
    → IsMessageBuffer b
    → (do b' ← serialize_report_process_data_msg h m b; deserialize_report_process_data_msg b')
      ≡ done m
unfolding serialize_report_process_data_msg deserialize_report_process_data_msg
    report_process_data_msg_of
deserialize-serialize_report_process_data_msg h m b v w fits size =
    let (b', written, scanned, checked, found) =
      frame "%d %d %d %d %d %d %d\n" "%d %d %d %d %d %d %d" (report_process_data_msg-Agree v w)
        (unfold directives in omega arith) (unfold directives in omega arith) m.payload_bytes
        m.payload b size fits in
    ap (λ (r : Outcome Buffer). r >>= deserialize_report_process_data_msg) written
    ∙ rw (scanned, checked, found)
