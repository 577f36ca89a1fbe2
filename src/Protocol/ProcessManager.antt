-- ===== src/Protocol/ProcessManager.antt =====
-- Registering a process manager (src/network/protocol.c): a first line, and a line for each
-- application.
use libdynpm.Base.{
  ℕ, zero, suc, ◌+◌, ◌-◌, Bool, ◌||◌, [], ◌∷◌, ◌++◌, List, Option, none, some, ◌==◌, if◌then◌else◌,
  length, drop, replicate, get_elem?,
}
use libdynpm.Text.Chars.{Bytes, codes}
use libdynpm.Text.Outcome.{Outcome, done, unset, or_fault, ◌>>=◌}
use libdynpm.Text.Format.{Value, num, str, directives}
use libdynpm.Text.Scan.{word, chars, scan}
use libdynpm.Text.Buffer.{Buffer, write, c_string, sprintf}
use libdynpm.Protocol.Header.{Header}
pub mod Lines
pub mod Writing
pub mod RoundTrip

-- `dynpm_application_t`
pub record Application : Type 0 where
  pub application_index : ℕ
  pub malleability_mode : ℕ
  pub node_count : ℕ
  pub nodes : Bytes

-- `dynpm_register_process_manager_msg_t`
pub record RegisterProcessManagerMsg : Type 0 where
  pub pid : ℕ
  pub hostname : Bytes
  pub job_index : ℕ
  pub application_count : ℕ
  pub applications : List Application

-- `strcat` into a block
unfoldable pub strcat : Buffer → Bytes → Outcome Buffer
strcat b t = do s ← or_fault (c_string b); or_fault (write (length s) (t ++ 0 ∷ []) b)

-- One round of the loop: the line of an application, through a block of 256 bytes.
unfoldable pub append_application : Application → Buffer → Outcome Buffer
append_application a b = do
  temp ←
      sprintf "%d %d %d %s \n"
        (num a.application_index ∷ num a.malleability_mode ∷ num a.node_count ∷ str a.nodes ∷ [])
        (replicate 256 0)
  line ← or_fault (c_string temp)
  strcat b line

-- The loop over the applications, with the rounds left and `app`.
unfoldable pub append_from : List Application → ℕ → ℕ → Buffer → Outcome Buffer
append_from applications zero app b = done b
append_from applications (suc rounds) app b = do
  a ← or_fault (get_elem? applications app)
  b' ← append_application a b
  append_from applications rounds (app + 1) b'

-- `dynpm_serialize_register_process_manager_msg`. The loop's variable `app` is declared with no value:
-- `app` is what its memory holds, converted to `uint32_t` as the comparison does.
unfoldable pub serialize_register_process_manager_msg :
    ℕ → Header → RegisterProcessManagerMsg → Buffer → Outcome Buffer
serialize_register_process_manager_msg app h m b = do
  b' ←
      sprintf "%d %d %d %s %d %d \n"
        (num h.source_type
          ∷ num h.message_type
          ∷ num m.pid
          ∷ str m.hostname
          ∷ num m.job_index
          ∷ num m.application_count
          ∷ [])
        b
  append_from m.applications (m.application_count - app) app b'

-- The delimiters of `strtok(…, "\r\n")`
abbrev pub is_line_end : ℕ → Bool
is_line_end c = c == 13 || c == 10

-- What precedes the first byte that ends a line, and the rest from it on.
unfoldable pub span_line : Bytes → Bytes × Bytes
span_line [] = ([], [])
span_line (c ∷ s) =
    let (t, rest) = span_line s in if is_line_end c then ([], c ∷ s) else (c ∷ t, rest)

-- The line ends at the front of a text, and the rest.
unfoldable pub span_ends : Bytes → Bytes × Bytes
span_ends [] = ([], [])
span_ends (c ∷ s) =
    let (t, rest) = span_ends s in if is_line_end c then (c ∷ t, rest) else ([], c ∷ s)

-- `strtok` over a text whose bytes `before` it has passed: the token, the bytes passed with the byte
-- behind the token turned into a NUL, and the text left; `none` if no token is left.
unfoldable pub close_token : Bytes → Bytes → Bytes → Option (Bytes × Bytes × Bytes)
close_token before [] rest = none
close_token before (c ∷ t) [] = some (c ∷ t, before ++ c ∷ t, [])
close_token before (c ∷ t) (_ ∷ rest) = some (c ∷ t, before ++ (c ∷ t) ++ 0 ∷ [], rest)

unfoldable pub strtok : Bytes → Bytes → Option (Bytes × Bytes × Bytes)
unfolding span_ends span_line close_token
strtok before s =
    let (ends, s') = span_ends s in
    let (t, rest) = span_line s' in close_token (before ++ ends) t rest

application_of : List Value → Outcome Application
application_of (num index ∷ num mode ∷ num count ∷ str nodes ∷ []) = done (record {
  application_index = index;
  malleability_mode = mode;
  node_count = count;
  nodes = nodes;
})
application_of _ = unset

-- The loop over the lines of the applications; `sscanf` of a null line is a fault.
unfoldable pub read_applications :
    ℕ → Bytes → Bytes → List Application → Outcome (List Application × Bytes × Bytes)
unfolding application_of
read_applications zero before s found = done (found, before, s)
read_applications (suc rounds) before s found = do
  (line, before', s') ← or_fault (strtok before s)
  vs ← scan (directives (codes "%d %d %d %s")) (word ∷ word ∷ word ∷ chars 512 ∷ []) line
  a ← application_of vs
  read_applications rounds before' s' (found ++ a ∷ [])

first_line_of : List Value → Outcome RegisterProcessManagerMsg
first_line_of (num source ∷ num message ∷ num pid ∷ str hostname ∷ num job ∷ num count ∷ []) =
    done (record {
      pid = pid;
      hostname = hostname;
      job_index = job;
      application_count = count;
      applications = [];
    })
first_line_of _ = unset

-- `dynpm_deserialize_register_process_manager_msg`: the message, and the buffer as `strtok` leaves it.
unfoldable pub deserialize_register_process_manager_msg :
    Buffer → Outcome (RegisterProcessManagerMsg × Buffer)
unfolding first_line_of
deserialize_register_process_manager_msg b = do
  s ← or_fault (c_string b)
  (line, before, s') ← or_fault (strtok [] s)
  vs ←
      scan (directives (codes "%d %d %d %s %d %d"))
        (word ∷ word ∷ word ∷ chars 256 ∷ word ∷ word ∷ []) line
  m ← first_line_of vs
  (applications, before', s'') ← read_applications m.application_count before s' []
  done (record m { applications = applications }, before' ++ s'' ++ drop (length s) b)
