-- ===== src/Protocol/Registration.antt =====
-- A registration as its receiver reads it: first the header, then the message (src/network/protocol.c).
use libdynpm.Base.{◌≡◌, ◌∙◌, ap, [], ◌∷◌, List, length, ◌<◌, some, arith}
use libdynpm.Text.Chars.{codes}
use libdynpm.Text.Outcome.{Outcome, done, ◌>>=◌}
use libdynpm.Text.Format.{Value, num, str, int, string, lit, directives}
use libdynpm.Text.Scan.{word, chars}
use libdynpm.Text.RoundTrip.{
  Agree, HasNoNul, width, number_space, token, finished, length-print, scan-two_words,
}
use libdynpm.Text.Buffer.{Buffer, overlay, c_string, c_string-append, length-overlay}
use libdynpm.Protocol.Frame.{
  IsMessageBuffer, text, sprintf_lem, sscanf_lem, sscanf-text, text-ne-nul,
}
use libdynpm.Protocol.Header.{Header, IsHeader, deserialize_header, from_values}
use libdynpm.Protocol.Connection.{
  RegisterConnectionMsg, IsRegisterConnectionMsg, serialize_register_connection_msg,
  deserialize_register_connection_msg, register_connection_msg_of,
}

module _ (h : Header) (m : RegisterConnectionMsg) (b : Buffer) (v : IsHeader h)
    (w : IsRegisterConnectionMsg m) (size : IsMessageBuffer b) where
  abbrev pub values : List Value
  values = num h.source_type ∷ num h.message_type ∷ num m.pid ∷ str m.hostname ∷ []

  -- The buffer of the registration.
  abbrev pub written : Buffer
  written = overlay (text "%d %d %d %s" values) b

  agree :
      Agree
        (directives (codes "%d %d %d %s"))
        (directives (codes "%d %d %d %s"))
        (word ∷ word ∷ word ∷ chars 256 ∷ [])
        values
  unfolding directives
  agree =
      number_space v.source
        (number_space v.message (number_space w.pid (token w.hostname w.hostname_fits tt finished)))

  literals : HasNoNul (directives (codes "%d %d %d %s"))
  unfolding directives
  literals = omega arith

  fits : width (directives (codes "%d %d %d %s")) values < length b
  unfolding directives
  fits = omega (arith, w.hostname_fits, size)

  pub serialize_lem : serialize_register_connection_msg h m b ≡ done written
  unfolding serialize_register_connection_msg
  serialize_lem =
      sprintf_lem "%d %d %d %s" values b
        (omega (arith, fits, length-print (directives (codes "%d %d %d %s")) values))

  c_string-written : c_string written ≡ some (text "%d %d %d %s" values)
  c_string-written =
      c_string-append (text "%d %d %d %s" values) _
        (text-ne-nul "%d %d %d %s" "%d %d %d %s" agree literals)

  pub header_lem : deserialize_header written ≡ done h
  unfolding deserialize_header from_values directives
  header_lem =
      ap (λ (o : Outcome (List Value)). o >>= from_values)
        (sscanf_lem "%d %d" (word ∷ word ∷ []) _ written c_string-written
          ∙ scan-two_words h.source_type h.message_type (int ∷ lit 32 ∷ string ∷ [])
              (num m.pid ∷ str m.hostname ∷ []) v.source v.message)

  pub message_lem : deserialize_register_connection_msg written ≡ done m
  unfolding deserialize_register_connection_msg register_connection_msg_of
  message_lem =
      ap (λ (o : Outcome (List Value)). o >>= register_connection_msg_of)
        (sscanf-text "%d %d %d %s" "%d %d %d %s" agree literals written c_string-written)

  pub written-IsMessageBuffer : IsMessageBuffer written
  written-IsMessageBuffer =
      length-overlay (text "%d %d %d %s" values) b
        (omega (arith, fits, length-print (directives (codes "%d %d %d %s")) values))
      ∙ size
