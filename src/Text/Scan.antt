-- ===== src/Text/Scan.antt =====
-- `sscanf`: what it assigns to its destinations.
use libdynpm.Base.{ℕ, List, [], ◌∷◌, ◌==◌, leb, if◌then◌else◌, length}
use libdynpm.Text.Chars.{Bytes, is_blank}
use libdynpm.Text.Outcome.{Outcome, done, unset, fault, ◌>>=◌}
use libdynpm.Text.Decimal.{skip, scan_int, Number}
use libdynpm.Text.Format.{Directive, Value}

-- Where a conversion stores: an `int`, or a `char` array of so many bytes.
pub data Destination : Type 0 where
  word : Destination
  chars : ℕ → Destination

-- The longest run of bytes that are no white space, and the rest.
unfoldable pub scan_token : Bytes → Bytes × Bytes
scan_token [] = ([], [])
scan_token (c ∷ s) =
    let (t, rest) = scan_token s in if is_blank c then ([], c ∷ s) else (c ∷ t, rest)

-- What is stored of a token: nothing if it is empty, and no more than its array holds with a NUL.
unfoldable pub store : ℕ → Bytes → Outcome Bytes
store size [] = unset
store size (c ∷ t) = if leb size (length (c ∷ t)) then fault else done (c ∷ t)

unfoldable pub starts_with_byte : ℕ → Bytes → Outcome Bytes
starts_with_byte c [] = unset
starts_with_byte c (d ∷ s) = if c == d then done s else unset

-- A `%d` that found `n`, and the rest of the scan.
abbrev pub assign_word : (Bytes → Outcome (List Value)) → Number → Outcome (List Value)
assign_word next (Number.word w rest) = do vs ← next rest; done (Value.num w ∷ vs)
assign_word next Number.missing = unset
assign_word next Number.too_large = fault

-- A `%s` that found a token, and the rest of the scan.
abbrev pub assign_token : (Bytes → Outcome (List Value)) → ℕ → Bytes × Bytes → Outcome (List Value)
assign_token next size (t, rest) = do
  stored ← store size t
  vs ← next rest
  done (Value.str stored ∷ vs)

-- The values assigned, one for each destination. The callers read every destination, so an early stop
-- leaves them with indeterminate memory: `unset`. A token that does not fit its array with its NUL,
-- and a number that is no `int`, are undefined in C: `fault`.
unfoldable pub scan : List Directive → List Destination → Bytes → Outcome (List Value)
scan [] [] s = done []
scan [] (_ ∷ _) s = unset
scan (Directive.lit c ∷ ds) dests s =
    let blank = scan ds dests (skip s) in
    let exact = (do rest ← starts_with_byte c s; scan ds dests rest) in
    if is_blank c then blank else exact
scan (Directive.int ∷ ds) (word ∷ dests) s = assign_word (scan ds dests) (scan_int s)
scan (Directive.string ∷ ds) (chars size ∷ dests) s =
    assign_token (scan ds dests) size (scan_token (skip s))
scan _ _ s = unset
