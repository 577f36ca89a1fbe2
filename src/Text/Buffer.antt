-- ===== src/Text/Buffer.antt =====
-- A message buffer: a block of bytes, written by `sprintf` and `memcpy` and read as a C string.
use libdynpm.Base.{
  take-all, ℕ, suc, ◌+◌, ◌-◌, ◌≤◌, ◌<◌, ◌≡◌, ◌≢◌, refl, ◌∙◌, ap, List, [], ◌∷◌, ◌++◌, append_assoc,
  Option, none, some, ◌==◌, leb, le→leb, if◌then◌else◌, length, take, drop, length-append,
  length-take, length-drop, drop-append, take-append, take-append_ge, All, arith, String,
}
use mathlib.Core.Option
use mathlib.Core.Path.{subst}
use libdynpm.Text.Chars.{Bytes, codes}
use libdynpm.Text.Outcome.{Outcome, done, or_fault, ◌>>=◌}
use libdynpm.Text.Format.{Value, directives, print}
use libdynpm.Text.Scan.{Destination, scan}

abbrev pub Buffer : Type 0
Buffer = List ℕ

-- The length of the block that an outcome gives.
abbrev pub size_of : Outcome Buffer → ℕ
size_of (done b) = length b
size_of _ = 0

-- `memcpy` into a block at an offset; `none` is a write past its end.
unfoldable pub write : ℕ → Bytes → Buffer → Option Buffer
write off s b =
    if leb (off + length s) (length b)
    then some (take off b ++ (s ++ drop (off + length s) b))
    else none

-- `memcpy` out of a block; `none` is a read past its end.
unfoldable pub read : ℕ → ℕ → Buffer → Option Bytes
read off n b = if leb (off + n) (length b) then some (take n (drop off b)) else none

-- The C string at the start of a block; `none` if no NUL ends it.
unfoldable pub c_string : Buffer → Option Bytes
c_string [] = none
c_string (c ∷ b) =
    let rest = Option.map (λ s. c ∷ s) (c_string b) in if c == 0 then some [] else rest

unfoldable pub sprintf : String → List Value → Buffer → Outcome Buffer
sprintf format vs b = or_fault (write 0 (print (directives (codes format)) vs ++ 0 ∷ []) b)

unfoldable pub sscanf : String → List Destination → Buffer → Outcome (List Value)
sscanf format dests b = do s ← or_fault (c_string b); scan (directives (codes format)) dests s

-- A block after a C string is stored at its start.
abbrev pub overlay : Bytes → Buffer → Buffer
overlay t b = t ++ 0 ∷ drop (length t + 1) b

pub c_string-append : (t r : Bytes) → All (λ c. c ≢ 0) t → c_string (t ++ 0 ∷ r) ≡ some t
unfolding c_string
c_string-append [] r h = refl
c_string-append (c ∷ t) r h = ground (arith, c_string-append t r h.1)

pub write_lem :
    (off : ℕ) (s : Bytes) (b : Buffer)
    → off + length s ≤ length b
    → write off s b ≡ some (take off b ++ (s ++ drop (off + length s) b))
unfolding write
write_lem off s b h = rw (le→leb _ _ h)

read_lem : (off n : ℕ) (b : Buffer) → off + n ≤ length b → read off n b ≡ some (take n (drop off b))
unfolding read
read_lem off n b h = rw (le→leb _ _ h)

pub write_past_end :
    (off : ℕ) (s : Bytes) (b : Buffer) → length b < off + length s → write off s b ≡ none
unfolding write
write_past_end off s b h = ground arith

pub write-overlay :
    (t : Bytes) (b : Buffer) → length t < length b → write 0 (t ++ 0 ∷ []) b ≡ some (overlay t b)
write-overlay t b h =
    write_lem 0 (t ++ 0 ∷ []) b (omega (arith, length-append t (0 ∷ [])))
    ∙ ap some (append_assoc t (0 ∷ []) (drop (0 + length (t ++ 0 ∷ [])) b))
    ∙ ap (λ k. some (t ++ 0 ∷ drop k b)) (omega (arith, length-append t (0 ∷ [])))

pub length-overlay :
    (t : Bytes) (b : Buffer) → length t < length b → length (overlay t b) ≡ length b
length-overlay t b h =
    omega (arith, length-append t (0 ∷ drop (length t + 1) b), length-drop (length t + 1) b)

take-overlay : (m : ℕ) (t r : Bytes) → take (length t + suc m) (t ++ 0 ∷ r) ≡ t ++ 0 ∷ take m r
take-overlay m t r =
    take-append_ge (length t + suc m) t (0 ∷ r) (omega arith)
    ∙ ap (λ k. t ++ take k (0 ∷ r)) {y = suc m} (omega arith)

-- The block after a copy of `p` to the offset `length t + suc m` of an overlay.
abbrev behind : ℕ → Bytes → Bytes → Bytes → Buffer
behind m t p b =
    take (length t + suc m) (overlay t b) ++ (p ++ drop (length t + suc m + length p) (overlay t b))

behind-c_string : (m : ℕ) (t p b : Bytes) → All (λ c. c ≢ 0) t → c_string (behind m t p b) ≡ some t
behind-c_string m t p b clean =
    ap (λ u. c_string (u ++ (p ++ drop (length t + suc m + length p) (overlay t b))))
      (take-overlay m t (drop (length t + 1) b))
    ∙ ap c_string (append_assoc t _ _)
    ∙ c_string-append t _ clean

behind-read :
    (m : ℕ) (t p b : Bytes)
    → length t + suc m + length p ≤ length b
    → read (length t + suc m) (length p) (behind m t p b) ≡ some p
behind-read m t p b fits =
    let off = length t + suc m in
    let front = take off (overlay t b) in
    let rear = drop (off + length p) (overlay t b) in
    let e : length front ≡ off =
      length-take off (overlay t b) (omega (arith, length-overlay t b (omega arith))) in
    read_lem off (length p) (front ++ (p ++ rear))
      (omega (arith, length-append front (p ++ rear), length-append p rear, e))
    ∙ ap (λ s. some (take (length p) s)) (drop-append off front (p ++ rear) e)
    ∙ ap some (take-append (length p) p rear refl)

pub read-all : (p : Bytes) → read 0 (length p) p ≡ some p
read-all p = read_lem 0 (length p) p (omega arith) ∙ ap some (take-all p)

write_behind_gap :
    (m : ℕ) (t p : Bytes) (b : Buffer)
    → All (λ c. c ≢ 0) t
    → length t + suc m + length p ≤ length b
    → (b' : Buffer) × (write (length t + suc m) p (overlay t b) ≡ some b')
      × (c_string b' ≡ some t)
      × (read (length t + suc m) (length p) b' ≡ some p)
write_behind_gap m t p b clean fits = (
  behind m t p b,
  write_lem _ p (overlay t b) (omega (arith, length-overlay t b (omega arith))),
  behind-c_string m t p b clean,
  behind-read m t p b fits,
)

-- A copy behind a C string leaves the string, and is read back.
pub write_behind :
    (off : ℕ) (t p : Bytes) (b : Buffer)
    → All (λ c. c ≢ 0) t
    → length t < off
    → off + length p ≤ length b
    → (b' : Buffer) × (write off p (overlay t b) ≡ some b')
      × (c_string b' ≡ some t)
      × (read off (length p) b' ≡ some p)
write_behind off t p b clean short fits =
    subst
      (λ k.
        (b' : Buffer) × (write k p (overlay t b) ≡ some b')
        × (c_string b' ≡ some t)
        × (read k (length p) b' ≡ some p))
      (gap off (length t) short) (write_behind_gap (off - length t - 1) t p b clean (omega arith))
  where
    gap : (k l : ℕ) → l < k → l + suc (k - l - 1) ≡ k
    gap k l h = omega arith
