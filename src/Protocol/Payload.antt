-- ===== src/Protocol/Payload.antt =====
-- The payload of a message: raw bytes at offset 256 of the buffer, behind the text.
use libdynpm.Base.{
  ℕ, ◌+◌, ◌≤◌, ◌<◌, ◌≡◌, ◌≢◌, List, String, Option, none, some, ltb, lt→ltb, if◌then◌else◌, length,
  All, arith,
}
use mathlib.Core.Path.{subst}
use libdynpm.Text.Chars.{Bytes, codes}
use libdynpm.Text.Outcome.{Outcome, done, fault, assert, or_fault, ◌>>=◌, ◌>>◌}
use libdynpm.Text.Format.{Value, directives}
use libdynpm.Text.Scan.{Destination}
use libdynpm.Text.RoundTrip.{Agree, HasNoNul, width, length-print}
use libdynpm.Text.Buffer.{
  Buffer, write, read, c_string, sprintf, sscanf, overlay, c_string-append, length-overlay,
  write_past_end, write_behind, read-all,
}
use libdynpm.Protocol.Frame.{
  max_message_size, IsMessageBuffer, text, sprintf_lem, sscanf-text, text-ne-nul,
}

abbrev pub payload_offset : ℕ
payload_offset = 256

-- `assert(strlen(char_buff) < 256)`
unfoldable pub check_text : Buffer → Outcome (Unit {0})
check_text b = do s ← or_fault (c_string b); assert (ltb (length s) payload_offset)

-- `if(payload_bytes > 0) memcpy(char_buff + 256, payload, payload_bytes)`; a null payload and one
-- shorter than it says are read out of bounds.
unfoldable pub attach : ℕ → Option Bytes → Buffer → Outcome Buffer
attach n payload b =
    if ltb 0 n
    then (do p ← or_fault payload; q ← or_fault (read 0 n p); or_fault (write payload_offset q b))
    else done b

-- `if(payload_bytes > 0) { payload = malloc(payload_bytes); memcpy(…) } else payload = NULL`
unfoldable pub detach : ℕ → Buffer → Outcome (Option Bytes)
detach n b =
    if ltb 0 n then (do p ← or_fault (read payload_offset n b); done (some p)) else done none

-- A payload as the code keeps it: none of length 0, or that many bytes that fit behind the text.
abbrev pub IsPayload : ℕ → Option Bytes → Type 0
IsPayload n none = n ≡ 0
IsPayload n (some p) = (0 < n) × (length p ≡ n) × (payload_offset + n ≤ max_message_size)

check_text_lem :
    (b : Buffer) (t : Bytes)
    → c_string b ≡ some t
    → length t < payload_offset
    → check_text b ≡ done tt
unfolding check_text
check_text_lem b t h short = rw (h, lt→ltb _ _ short)

attach-overlay_whole :
    (p t : Bytes) (b : Buffer)
    → All (λ c. c ≢ 0) t
    → length t < payload_offset
    → 0 < length p
    → payload_offset + length p ≤ length b
    → (b' : Buffer) × (attach (length p) (some p) (overlay t b) ≡ done b')
      × (c_string b' ≡ some t)
      × (detach (length p) b' ≡ done (some p))
unfolding attach detach
attach-overlay_whole p t b clean short pos fits =
    let (b', written, kept, found) = write_behind payload_offset t p b clean short fits in
    (b', rw (lt→ltb _ _ pos, read-all p, written), kept, rw (lt→ltb _ _ pos, found))

-- The payload behind a text of less than 256 bytes leaves the text, and is read back.
attach-overlay :
    (n : ℕ) (payload : Option Bytes) (t : Bytes) (b : Buffer)
    → All (λ c. c ≢ 0) t
    → length t < payload_offset
    → IsMessageBuffer b
    → IsPayload n payload
    → (b' : Buffer) × (attach n payload (overlay t b) ≡ done b')
      × (c_string b' ≡ some t)
      × (detach n b' ≡ done payload)
unfolding attach detach
attach-overlay n none t b clean short size h =
    (overlay t b, ground arith, c_string-append t _ clean, ground arith)
attach-overlay n (some p) t b clean short size h =
    subst
      (λ k.
        (b' : Buffer) × (attach k (some p) (overlay t b) ≡ done b')
        × (c_string b' ≡ some t)
        × (detach k b' ≡ done (some p)))
      h.1 (attach-overlay_whole p t b clean short (omega arith) (omega arith))

attach_too_large_length :
    (p t : Bytes) (b : Buffer)
    → length t < length b
    → 0 < length p
    → length b < payload_offset + length p
    → attach (length p) (some p) (overlay t b) ≡ fault
unfolding attach
attach_too_large_length p t b short pos large = rw (
  lt→ltb _ _ pos,
  read-all p,
  write_past_end payload_offset p (overlay t b) (omega (arith, length-overlay t b short)),
)

-- A payload that does not fit behind the text is copied past the end of the buffer.
attach_too_large :
    (n : ℕ) (p t : Bytes) (b : Buffer)
    → length t < length b
    → length p ≡ n
    → IsMessageBuffer b
    → max_message_size < payload_offset + n
    → attach n (some p) (overlay t b) ≡ fault
attach_too_large n p t b short e size large =
    subst (λ k. attach k (some p) (overlay t b) ≡ fault) e
      (attach_too_large_length p t b short (omega arith) (omega arith))

-- A text printed by `f` with a payload behind it, and what a reader with the format `g` makes of it.
module _ (f g : String) {dests : List Destination} {vs : List Value}
    (agree : Agree (directives (codes f)) (directives (codes g)) dests vs)
    (literals : HasNoNul (directives (codes f)))
    (short : width (directives (codes f)) vs < payload_offset) where
  short_text : length (text f vs) < payload_offset
  short_text = omega (arith, length-print (directives (codes f)) vs, short)

  -- The message is written; its text and its payload are read back.
  pub frame :
      (n : ℕ) (payload : Option Bytes) (b : Buffer)
      → IsMessageBuffer b
      → IsPayload n payload
      → (b' : Buffer) × ((do b₁ ← sprintf f vs b; check_text b₁; attach n payload b₁) ≡ done b')
        × (sscanf g dests b' ≡ done vs)
        × (check_text b' ≡ done tt)
        × (detach n b' ≡ done payload)
  frame n payload b size h =
      let t = text f vs in
      let clean = text-ne-nul f g agree literals in
      let (b', attached, kept, found) = attach-overlay n payload t b clean short_text size h in
      (
        b',
        rw
            (
              sprintf_lem f vs b (omega (arith, short_text)),
              check_text_lem (overlay t b) t (c_string-append t _ clean) short_text,
            )
            attached,
        sscanf-text f g agree literals b' kept,
        check_text_lem b' t kept short_text,
        found,
      )

  -- A payload that is too large makes the writer write past the buffer, after the text is accepted.
  pub frame_too_large :
      (n : ℕ) (p : Bytes) (b : Buffer)
      → IsMessageBuffer b
      → length p ≡ n
      → max_message_size < payload_offset + n
      → (do b₁ ← sprintf f vs b; check_text b₁; attach n (some p) b₁) ≡ fault
  frame_too_large n p b size e large =
      let t = text f vs in
      let clean = text-ne-nul f g agree literals in
      rw
        (
          sprintf_lem f vs b (omega (arith, short_text)),
          check_text_lem (overlay t b) t (c_string-append t _ clean) short_text,
        )
        (attach_too_large n p t b (omega (arith, short_text)) e size large)
