-- ===== src/Protocol/ProcessManager/Lines.antt =====
-- Text in lines, as `strtok` takes it apart.
use libdynpm.Base.{
  ℕ, ◌≡◌, ◌≢◌, refl, false, [], ◌∷◌, ◌++◌, List, All, All-append, some, append-nil, arith,
}
use libdynpm.Text.Chars.{Bytes, IsGraph}
use libdynpm.Text.Decimal.{print_int, print_int-IsGraph}
use libdynpm.Text.Format.{Directive, lit, int, string, Value, num, str, print}
use libdynpm.Text.Scan.{Destination}
use libdynpm.Text.RoundTrip.{Agree, finished, blank, number, token}
use libdynpm.Protocol.ProcessManager.{is_line_end, span_line, span_ends, close_token, strtok}

-- A byte within a line
abbrev pub IsInline : ℕ → Type 0
IsInline c = (is_line_end c ≡ false) × (c ≢ 0)

graph-IsInline : (s : Bytes) → All IsGraph s → All IsInline s
graph-IsInline [] h = tt
graph-IsInline (c ∷ s) h = ((ground arith, h.0.1), graph-IsInline s h.1)

pub inline-ne-nul : (s : Bytes) → All IsInline s → All (λ c. c ≢ 0) s
inline-ne-nul [] h = tt
inline-ne-nul (c ∷ s) h = (h.0.1, inline-ne-nul s h.1)

-- The literals of a format stay in the line.
abbrev pub HasNoEnd : List Directive → Type 0
HasNoEnd [] = Unit
HasNoEnd (lit c ∷ ds) = IsInline c × HasNoEnd ds
HasNoEnd (int ∷ ds) = HasNoEnd ds
HasNoEnd (string ∷ ds) = HasNoEnd ds

IsPlain : Value → Type 0
IsPlain (num w) = Unit
IsPlain (str s) = All IsGraph s

print-IsInline :
    (ds : List Directive) (vs : List Value)
    → HasNoEnd ds
    → All IsPlain vs
    → All IsInline (print ds vs)
unfolding print IsPlain
print-IsInline [] vs h k = tt
print-IsInline (lit c ∷ ds) vs h k = (h.0, print-IsInline ds vs h.1 k)
print-IsInline (int ∷ ds) (num w ∷ vs) h k =
    All-append _ (print_int w) _ (graph-IsInline _ (print_int-IsGraph w))
      (print-IsInline ds vs h k.1)
print-IsInline (string ∷ ds) (str s ∷ vs) h k =
    All-append _ s _ (graph-IsInline s k.0) (print-IsInline ds vs h k.1)
print-IsInline _ _ h k = tt

Agree-IsPlain :
    {ds es : List Directive} {dests : List Destination} {vs : List Value}
    → Agree ds es dests vs
    → All IsPlain vs
unfolding IsPlain
Agree-IsPlain finished = tt
Agree-IsPlain (blank c e a) = Agree-IsPlain a
Agree-IsPlain (number small ends a) = (tt, Agree-IsPlain a)
Agree-IsPlain (token h small ends a) = (h.1, Agree-IsPlain a)

-- What a format without line ends prints is one line.
pub line-IsInline :
    {ds es : List Directive} {dests : List Destination} {vs : List Value}
    → Agree ds es dests vs
    → HasNoEnd ds
    → All IsInline (print ds vs)
line-IsInline {ds} {vs = vs} agree literals = print-IsInline ds vs literals (Agree-IsPlain agree)

span_line-append : (t r : Bytes) → All IsInline t → span_line (t ++ 10 ∷ r) ≡ (t, 10 ∷ r)
unfolding span_line
span_line-append [] r h = refl
span_line-append (c ∷ t) r h = ground (arith, span_line-append t r h.1)

span_ends-inline : (c : ℕ) (s : Bytes) → IsInline c → span_ends (c ∷ s) ≡ ([], c ∷ s)
unfolding span_ends
span_ends-inline c s h = rw h.0

-- The first line is the next token.
pub strtok-append :
    (before t r : Bytes)
    → t ≢ []
    → All IsInline t
    → strtok before (t ++ 10 ∷ r) ≡ some (t, before ++ t ++ 0 ∷ [], r)
unfolding strtok close_token
strtok-append before [] r some_text h = absurd (some_text refl)
strtok-append before (c ∷ t) r some_text h =
    rw (span_ends-inline c (t ++ 10 ∷ r) h.0, span_line-append (c ∷ t) r h, append-nil before)
