-- ===== src/Text/RoundTrip.antt =====
-- What `sprintf` prints, `sscanf` reads back, if the two formats agree.
use libdynpm.Base.{
  ℕ, ◌+◌, ◌^◌, ◌≤◌, ◌<◌, ◌≡◌, ◌≢◌, refl, true, List, [], ◌∷◌, ◌++◌, length, length-append, All,
  All-append, arith,
}
use libdynpm.Text.Chars.{Bytes, IsGraph, IsToken, IsDelimited, is_blank}
use libdynpm.Text.Outcome.{done}
use libdynpm.Text.Decimal.{
  print_int, length-print_int, print_int-IsGraph, skip, scan_int, scan_int-print_int,
}
use libdynpm.Text.Format.{Directive, lit, int, string, Value, num, str, print}
use libdynpm.Text.Scan.{Destination, word, chars, scan_token, store, scan}

-- The field before `ds` ends where it should: nothing follows it, or white space does.
abbrev pub EndsField : List Directive → Type 0
EndsField [] = Unit
EndsField (lit c ∷ ds) = is_blank c ≡ true
EndsField (int ∷ ds) = ⊥
EndsField (string ∷ ds) = ⊥

-- A format to print and one to scan name the same fields, apart by white space, and the values fit the
-- destinations. What is printed behind the last field read is free.
pub data Agree : List Directive → List Directive → List Destination → List Value → Type 0 where
  finished : {ds : List Directive} → Agree ds [] [] []
  blank :
      {c e : ℕ} {ds es : List Directive} {dests : List Destination} {vs : List Value}
      → is_blank c ≡ true
      → is_blank e ≡ true
      → Agree ds es dests vs
      → Agree (lit c ∷ ds) (lit e ∷ es) dests vs
  number :
      {w : ℕ} {ds es : List Directive} {dests : List Destination} {vs : List Value}
      → w < 2 ^ 32
      → EndsField ds
      → Agree ds es dests vs
      → Agree (int ∷ ds) (int ∷ es) (word ∷ dests) (num w ∷ vs)
  token :
      {t : Bytes} {n : ℕ} {ds es : List Directive} {dests : List Destination} {vs : List Value}
      → IsToken t
      → length t < n
      → EndsField ds
      → Agree ds es dests vs
      → Agree (string ∷ ds) (string ∷ es) (chars n ∷ dests) (str t ∷ vs)

print-IsDelimited :
    (ds : List Directive) (vs : List Value) → EndsField ds → IsDelimited (print ds vs)
unfolding print
print-IsDelimited [] vs h = tt
print-IsDelimited (lit c ∷ ds) vs h = h
print-IsDelimited (int ∷ ds) vs h = absurd h
print-IsDelimited (string ∷ ds) vs h = absurd h

skip-skip : (s : Bytes) → skip (skip s) ≡ skip s
unfolding skip
skip-skip [] = refl
skip-skip (c ∷ s) = ground (arith, skip-skip s)

skip-token : (t s : Bytes) → IsToken t → skip (t ++ s) ≡ t ++ s
unfolding skip
skip-token [] s h = absurd (h.0 refl)
skip-token (c ∷ t) s h = ground arith

scan_token-append : (t s : Bytes) → All IsGraph t → IsDelimited s → scan_token (t ++ s) ≡ (t, s)
unfolding scan_token
scan_token-append [] [] h d = refl
scan_token-append [] (c ∷ s) h d = ground arith
scan_token-append (c ∷ t) s h d = ground (arith, scan_token-append t s h.1 d)

store_lem : (n : ℕ) (t : Bytes) → IsToken t → length t < n → store n t ≡ done t
unfolding store
store_lem n [] h small = absurd (h.0 refl)
store_lem n (c ∷ t) h small = ground arith

scan_int-skip : (s : Bytes) → scan_int (skip s) ≡ scan_int s
unfolding scan_int
scan_int-skip s = rw skip-skip

skip_blank : (c : ℕ) (s : Bytes) → is_blank c ≡ true → skip (c ∷ s) ≡ skip s
unfolding skip
skip_blank c s h = rw h

scan-skip :
    {ds es : List Directive} {dests : List Destination} {vs : List Value} (s : Bytes)
    → Agree ds es dests vs
    → scan es dests (skip s) ≡ scan es dests s
unfolding scan
scan-skip s finished = refl
scan-skip s (blank c e a) = rw (e, skip-skip)
scan-skip s (number small ends a) = rw scan_int-skip
scan-skip s (token h small ends a) = rw skip-skip

-- The values printed are the values assigned.
pub scan-print :
    {ds es : List Directive} {dests : List Destination} {vs : List Value}
    → Agree ds es dests vs
    → scan es dests (print ds vs) ≡ done vs
unfolding scan print
scan-print finished = refl
scan-print (blank {c} {ds = ds} {vs = vs} c_blank e_blank a) =
    rw (e_blank, skip_blank c (print ds vs) c_blank, scan-skip (print ds vs) a) (scan-print a)
scan-print (number {w} {ds} {vs = vs} small ends a) =
    rw (scan_int-print_int w (print ds vs) small (print-IsDelimited ds vs ends), scan-print a)
scan-print (token {t} {n} {ds} {vs = vs} h small ends a) = rw (
  skip-token t (print ds vs) h,
  scan_token-append t (print ds vs) h.1 (print-IsDelimited ds vs ends),
  store_lem n t h small,
  scan-print a,
)

-- Two words at the front of a text, whatever follows them.
pub scan-two_words :
    (v w : ℕ) (ds : List Directive) (vs : List Value)
    → v < 2 ^ 32
    → w < 2 ^ 32
    → scan
        (int ∷ lit 32 ∷ int ∷ [])
        (word ∷ word ∷ [])
        (print (int ∷ lit 32 ∷ int ∷ lit 32 ∷ ds) (num v ∷ num w ∷ vs))
      ≡ done (num v ∷ num w ∷ [])
unfolding scan print
scan-two_words v w ds vs small small' = rw (
  scan_int-print_int v (32 ∷ (print_int w ++ 32 ∷ print ds vs)) small refl,
  skip_blank 32 (print_int w ++ 32 ∷ print ds vs) refl,
  scan_int-skip (print_int w ++ 32 ∷ print ds vs),
  scan_int-print_int w (32 ∷ print ds vs) small' refl,
)

-- A value whose print holds no NUL.
abbrev pub IsClean : Value → Type 0
IsClean (num w) = Unit
IsClean (str s) = All (λ c. c ≢ 0) s

-- Room for what a format prints.
abbrev pub width : List Directive → List Value → ℕ
width [] vs = 0
width (lit c ∷ ds) vs = 1 + width ds vs
width (int ∷ ds) (num w ∷ vs) = 11 + width ds vs
width (string ∷ ds) (str s ∷ vs) = length s + width ds vs
width _ _ = 0

pub length-print : (ds : List Directive) (vs : List Value) → length (print ds vs) ≤ width ds vs
unfolding print
length-print [] vs = omega arith
length-print (lit c ∷ ds) vs = omega (arith, length-print ds vs)
length-print (int ∷ ds) (num w ∷ vs) =
    omega (arith, length-print ds vs, length-print_int w, length-append (print_int w) (print ds vs))
length-print (string ∷ ds) (str s ∷ vs) =
    omega (arith, length-print ds vs, length-append s (print ds vs))
length-print _ _ = omega arith

abbrev pub HasNoNul : List Directive → Type 0
HasNoNul [] = Unit
HasNoNul (lit c ∷ ds) = (c ≢ 0) × HasNoNul ds
HasNoNul (int ∷ ds) = HasNoNul ds
HasNoNul (string ∷ ds) = HasNoNul ds

pub graph-ne-nul : (s : Bytes) → All IsGraph s → All (λ c. c ≢ 0) s
graph-ne-nul [] h = tt
graph-ne-nul (c ∷ s) h = (h.0.1, graph-ne-nul s h.1)

pub print-ne-nul :
    (ds : List Directive) (vs : List Value)
    → HasNoNul ds
    → All IsClean vs
    → All (λ c. c ≢ 0) (print ds vs)
unfolding print
print-ne-nul [] vs h k = tt
print-ne-nul (lit c ∷ ds) vs h k = (h.0, print-ne-nul ds vs h.1 k)
print-ne-nul (int ∷ ds) (num w ∷ vs) h k =
    All-append _ (print_int w) _ (graph-ne-nul _ (print_int-IsGraph w)) (print-ne-nul ds vs h k.1)
print-ne-nul (string ∷ ds) (str s ∷ vs) h k = All-append _ s _ k.0 (print-ne-nul ds vs h k.1)
print-ne-nul _ _ h k = tt

pub Agree-IsClean :
    {ds es : List Directive} {dests : List Destination} {vs : List Value}
    → Agree ds es dests vs
    → All IsClean vs
Agree-IsClean finished = tt
Agree-IsClean (blank c e a) = Agree-IsClean a
Agree-IsClean (number small ends a) = (tt, Agree-IsClean a)
Agree-IsClean (token h small ends a) = (graph-ne-nul _ h.1, Agree-IsClean a)

-- A word and one space.
pub number_space :
    {w : ℕ} {ds es : List Directive} {dests : List Destination} {vs : List Value}
    → w < 2 ^ 32
    → Agree ds es dests vs
    → Agree (int ∷ lit 32 ∷ ds) (int ∷ lit 32 ∷ es) (word ∷ dests) (num w ∷ vs)
number_space small a = number small refl (blank refl refl a)

-- A token and one space.
pub token_space :
    {t : Bytes} {n : ℕ} {ds es : List Directive} {dests : List Destination} {vs : List Value}
    → IsToken t
    → length t < n
    → Agree ds es dests vs
    → Agree (string ∷ lit 32 ∷ ds) (string ∷ lit 32 ∷ es) (chars n ∷ dests) (str t ∷ vs)
token_space h small a = token h small refl (blank refl refl a)
