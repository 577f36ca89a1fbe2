-- ===== src/Protocol/Frame.antt =====
-- A message as text at the start of a buffer of the fixed message size.
use libdynpm.Base.{ℕ, ◌^◌, ◌<◌, ◌≡◌, ◌≢◌, ◌∙◌, ap, List, String, length, All, arith, some}
use libdynpm.Text.Chars.{Bytes, codes}
use libdynpm.Text.Outcome.{Outcome, done, or_fault, ◌>>=◌, >>=-assoc}
use libdynpm.Text.Format.{Value, directives, print}
use libdynpm.Text.Scan.{Destination, scan}
use libdynpm.Text.RoundTrip.{
  Agree, HasNoNul, print-ne-nul, Agree-IsClean, scan-print, width, length-print,
}
use libdynpm.Text.Buffer.{
  Buffer, c_string, sprintf, sscanf, overlay, write-overlay, c_string-append,
}

-- `DYNPM_MAX_MESSAGE_SIZE`
abbrev pub max_message_size : ℕ
max_message_size = 4096

abbrev pub IsWord : ℕ → Type 0
IsWord w = w < 2 ^ 32

-- A block of the size that the callers allocate, whatever it held before.
abbrev pub IsMessageBuffer : Buffer → Type 0
IsMessageBuffer b = length b ≡ max_message_size

-- `format`, filled with `vs`
abbrev pub text : String → List Value → Bytes
text format vs = print (directives (codes format)) vs

pub sprintf_lem :
    (format : String) (vs : List Value) (b : Buffer)
    → length (text format vs) < length b
    → sprintf format vs b ≡ done (overlay (text format vs) b)
unfolding sprintf
sprintf_lem format vs b h = ap or_fault (write-overlay (text format vs) b h)

pub sscanf_lem :
    (format : String) (dests : List Destination) (t : Bytes) (b : Buffer)
    → c_string b ≡ some t
    → sscanf format dests b ≡ scan (directives (codes format)) dests t
unfolding sscanf
sscanf_lem format dests t b h = rw h

-- Text printed by one format, read by a format that agrees with it.
module _ (f g : String) {dests : List Destination} {vs : List Value}
    (agree : Agree (directives (codes f)) (directives (codes g)) dests vs)
    (literals : HasNoNul (directives (codes f))) where
  pub text-ne-nul : All (λ c. c ≢ 0) (text f vs)
  text-ne-nul = print-ne-nul (directives (codes f)) vs literals (Agree-IsClean agree)

  pub sscanf-text : (b : Buffer) → c_string b ≡ some (text f vs) → sscanf g dests b ≡ done vs
  sscanf-text b h = sscanf_lem g dests (text f vs) b h ∙ scan-print agree

  pub sscanf-sprintf :
      (b : Buffer)
      → width (directives (codes f)) vs < length b
      → (do b' ← sprintf f vs b; sscanf g dests b') ≡ done vs
  sscanf-sprintf b h =
      ap (λ (m : Outcome Buffer). m >>= sscanf g dests)
        (sprintf_lem f vs b (omega (arith, length-print (directives (codes f)) vs)))
      ∙ sscanf-text (overlay (text f vs) b) (c_string-append (text f vs) _ text-ne-nul)

  -- What a reader makes of the values that it scans is what it makes of the values printed.
  pub read_back {ℓ} :
      {A : Type ℓ} (from : List Value → Outcome A) (b : Buffer)
      → width (directives (codes f)) vs < length b
      → (do b' ← sprintf f vs b; found ← sscanf g dests b'; from found) ≡ from vs
  read_back from b h =
      >>=-assoc (sprintf f vs b) (sscanf g dests) from
      ∙ ap (λ (m : Outcome (List Value)). m >>= from) (sscanf-sprintf b h)
