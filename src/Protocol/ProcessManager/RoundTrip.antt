-- ===== src/Protocol/ProcessManager/RoundTrip.antt =====
-- The registration of a process manager, written and read back.
use libdynpm.Base.{
  ℕ, ◌+◌, ◌≤◌, ◌<◌, ◌≡◌, ◌≢◌, ◌∙◌, refl, ap, sym, [], ◌∷◌, ◌++◌, List, All, All-append, some,
  append_assoc, append-nil, arith, length, length-append, drop,
}
use libdynpm.Text.Chars.{Bytes, codes, IsToken}
use libdynpm.Text.Outcome.{done, ◌>>=◌}
use libdynpm.Text.Decimal.{print_int}
use libdynpm.Text.Format.{Value, num, str, directives, print}
use libdynpm.Text.Scan.{word, chars}
use libdynpm.Text.RoundTrip.{
  Agree, finished, number_space, token_space, number, scan-print, length-print,
}
use libdynpm.Text.Buffer.{
  size_of, Buffer, c_string, sprintf, overlay, c_string-append, length-overlay,
}
use libdynpm.Protocol.Frame.{IsWord, IsMessageBuffer, text, sprintf_lem}
use libdynpm.Protocol.Header.{Header, IsHeader}
use libdynpm.Protocol.ProcessManager.{
  Application, RegisterProcessManagerMsg, append_from, serialize_register_process_manager_msg,
  read_applications, deserialize_register_process_manager_msg, application_of, first_line_of,
}
use libdynpm.Protocol.ProcessManager.Lines.{IsInline, inline-ne-nul, line-IsInline, strtok-append}
use libdynpm.Protocol.ProcessManager.Writing.{
  IsApplication, body, lines, body-Agree, body-IsInline, lines-ne-nul, length-lines,
  append_from_lem,
}

append-ne-nil : (p r : Bytes) (c : ℕ) → p ++ c ∷ r ≢ []
append-ne-nil p r c e = omega (arith, ap length e, length-append p (c ∷ r))

body-ne-nil : (a : Application) → body a ≢ []
unfolding print directives
body-ne-nil a = append-ne-nil (print_int a.application_index) _ 32

-- The loop of the reader finds the applications in their lines.
read_applications-lines :
    (applications found : List Application) (before : Bytes)
    → All IsApplication applications
    → (kept : Bytes) × (read_applications (length applications) before (lines applications) found
        ≡ done (found ++ applications, kept, []))
unfolding read_applications application_of
read_applications-lines [] found before vs =
    (before, ap (λ read. done (read, before, [])) (sym (append-nil found)))
read_applications-lines (a ∷ applications) found before vs =
    let (kept, rest) =
      read_applications-lines applications (found ++ a ∷ []) (before ++ body a ++ 0 ∷ []) vs.1 in
    (
      kept,
      rw
          (
            strtok-append before (body a) (lines applications) (body-ne-nil a)
                (body-IsInline a vs.0),
            scan-print (body-Agree a vs.0),
          )
          (rest ∙ ap (λ read. done (read, kept, [])) (append_assoc found (a ∷ []) applications)),
    )

-- Every number is a 32-bit word, the host is one token that fits the array it is read to, the count is
-- that of the applications, and there are at most 14 of them, which fit a message.
pub record IsRegisterProcessManagerMsg (m : RegisterProcessManagerMsg) : Type 0 where
  pub pid : IsWord m.pid
  pub hostname : IsToken m.hostname
  pub hostname_fits : length m.hostname < 256
  pub job_index : IsWord m.job_index
  pub counted : m.application_count ≡ length m.applications
  pub few : length m.applications ≤ 14
  pub applications : All IsApplication m.applications

module _ (h : Header) (m : RegisterProcessManagerMsg) where
  abbrev head_values : List Value
  head_values =
      num h.source_type
      ∷ num h.message_type
      ∷ num m.pid
      ∷ str m.hostname
      ∷ num m.job_index
      ∷ num m.application_count
      ∷ []

  -- The first line, without its end
  abbrev head : Bytes
  head = text "%d %d %d %s %d %d " head_values

  text-head : text "%d %d %d %s %d %d \n" head_values ≡ head ++ 10 ∷ []
  unfolding directives print
  text-head = simp append_assoc

  head-ne-nil : head ≢ []
  unfolding print directives
  head-ne-nil = append-ne-nil (print_int h.source_type) _ 32

  module _ (v : IsHeader h) (w : IsRegisterProcessManagerMsg m) where
    head-Agree :
        Agree
          (directives (codes "%d %d %d %s %d %d "))
          (directives (codes "%d %d %d %s %d %d"))
          (word ∷ word ∷ word ∷ chars 256 ∷ word ∷ word ∷ [])
          head_values
    unfolding directives
    head-Agree = number_space v.source (
        number_space v.message (
          number_space w.pid (
            token_space w.hostname w.hostname_fits
              (number_space w.job_index (number (omega (arith, w.counted, w.few)) refl finished)))))

    head-IsInline : All IsInline head
    unfolding directives
    head-IsInline = line-IsInline head-Agree (ground arith)

    length-head : length head < 323
    unfolding directives
    length-head =
        omega (
          arith,
          length-print (directives (codes "%d %d %d %s %d %d ")) head_values,
          w.hostname_fits,
        )

    -- What the writer leaves, with the loop's variable at 0 before the first round
    serialize_lem :
        (b : Buffer)
        → IsMessageBuffer b
        → serialize_register_process_manager_msg 0 h m b
          ≡ done (overlay ((head ++ 10 ∷ []) ++ lines m.applications) b)
    unfolding serialize_register_process_manager_msg
    serialize_lem b size =
        let line = head ++ 10 ∷ [] in
        let sizes = length-append head (10 ∷ []) in
        let line_clean : All (λ c. c ≢ 0) line =
          All-append _ head (10 ∷ []) (inline-ne-nul head head-IsInline) ((λ e. omega arith), tt) in
        let printed : sprintf "%d %d %d %s %d %d \n" head_values b ≡ done (overlay line b) =
          sprintf_lem "%d %d %d %s %d %d \n" head_values b
            (omega (arith, ap length text-head, sizes, length-head))
          ∙ ap (λ t. done (overlay t b)) text-head in
        rw printed (
          ap (λ k. append_from m.applications k 0 (overlay line b)) {y = length m.applications}
            (omega (arith, w.counted))
          ∙ append_from_lem m.applications m.applications 0 line b refl w.applications line_clean (
              omega (arith, sizes, length-head, length-lines m.applications w.applications, w.few)))

    -- What the reader makes of a text of these lines
    deserialize_lem :
        (b : Buffer)
        → c_string b ≡ some (head ++ 10 ∷ lines m.applications)
        → (b' : Buffer) × (deserialize_register_process_manager_msg b ≡ done (m, b'))
    unfolding deserialize_register_process_manager_msg first_line_of
    deserialize_lem b found =
        let rest = lines m.applications in
        let (kept, reads) =
          read_applications-lines m.applications [] (head ++ 0 ∷ []) w.applications in
        let counted : read_applications m.application_count (head ++ 0 ∷ []) rest []
            ≡ done (m.applications, kept, []) =
          ap (λ k. read_applications k (head ++ 0 ∷ []) rest []) w.counted ∙ reads in
        (
          kept ++ [] ++ drop (length (head ++ 10 ∷ rest)) b,
          rw (
            found,
            strtok-append [] head rest head-ne-nil head-IsInline,
            scan-print head-Agree,
            counted,
          ),
        )

-- The registration of a process manager with a header, where the loop's variable happens to hold 0,
-- is written to a buffer of the message size and read back as it was: the numbers are 32-bit words,
-- the host and the nodes of each application are tokens that fit, the count is that of the
-- applications, and there are at most 14 of them. The reader leaves another buffer.
pub deserialize-serialize_register_process_manager_msg :
    (h : Header) (m : RegisterProcessManagerMsg) (b : Buffer)
    → IsHeader h
    → IsRegisterProcessManagerMsg m
    → IsMessageBuffer b
    → (left : Buffer) × ((do
      b' ← serialize_register_process_manager_msg 0 h m b
      deserialize_register_process_manager_msg b')
        ≡ done (m, left))
deserialize-serialize_register_process_manager_msg h m b v w size =
    let line = head h m ++ 10 ∷ [] in
    let whole = line ++ lines m.applications in
    let clean : All (λ c. c ≢ 0) whole =
      All-append _ line (lines m.applications)
        (All-append _ (head h m) (10 ∷ []) (inline-ne-nul (head h m) (head-IsInline h m v w))
          ((λ e. omega arith), tt))
        (lines-ne-nul m.applications w.applications) in
    let holds : c_string (overlay whole b) ≡ some (head h m ++ 10 ∷ lines m.applications) =
      c_string-append whole (drop (length whole + 1) b) clean
      ∙ ap some (append_assoc (head h m) (10 ∷ []) (lines m.applications)) in
    let (left, read) = deserialize_lem h m v w (overlay whole b) holds in
    (left, rw (serialize_lem h m v w b size) read)

-- What the writer leaves has the message size.
pub serialize_register_process_manager_msg-IsMessageBuffer :
    (h : Header) (m : RegisterProcessManagerMsg) (b b' : Buffer)
    → IsHeader h
    → IsRegisterProcessManagerMsg m
    → IsMessageBuffer b
    → serialize_register_process_manager_msg 0 h m b ≡ done b'
    → IsMessageBuffer b'
serialize_register_process_manager_msg-IsMessageBuffer h m b b' v w size e =
    let line = head h m ++ 10 ∷ [] in
    let whole = line ++ lines m.applications in
    let fits : length whole < length b = omega (
      arith,
      length-append line (lines m.applications),
      length-append (head h m) (10 ∷ []),
      length-head h m v w,
      length-lines m.applications w.applications,
      w.few,
    ) in
    ap size_of (sym e ∙ serialize_lem h m v w b size) ∙ length-overlay whole b fits ∙ size
