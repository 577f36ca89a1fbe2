-- ===== src/Text/Decimal.antt =====
-- `%d`: a 32-bit word printed as a signed decimal, and read back.
use libdynpm.Base.{
  Bool-cases, inl, inr, sym, ℕ, zero, suc, ◌+◌, ◌-◌, ◌*◌, ◌/◌, ◌%◌, ◌^◌, ◌≤◌, ◌<◌, ◌≡◌, refl, ◌∙◌,
  ap, Bool, true, false, [], ◌∷◌, ◌++◌, append_assoc, Option, none, some, ltb, leb, ◌==◌,
  if◌then◌else◌, length, length-append, All, All-append, arith,
}
use mathlib.Core.Path.{subst}
use native.Mathlib.Nat.{pow-suc}
use libdynpm.Text.Chars.{Bytes, is_blank, is_digit, IsGraph, IsDelimited, digit-IsGraph}

-- The decimal digits of `n`, at most `f` of them.
unfoldable pub decimal : ℕ → ℕ → Bytes
decimal zero n = []
decimal (suc f) n =
    let front = decimal f (n / 10) in
    if ltb n 10 then (48 + n) ∷ [] else front ++ (48 + n % 10) ∷ []

-- Ten digits hold every magnitude of an `int`.
unfoldable pub print_int : ℕ → Bytes
print_int w = if ltb w (2 ^ 31) then decimal 10 w else b'-' ∷ decimal 10 (2 ^ 32 - w)

-- The longest run of digits, with the number that it spells behind `acc`.
unfoldable pub scan_nat : ℕ → Bytes → ℕ × Bytes
scan_nat acc [] = (acc, [])
scan_nat acc (c ∷ s) =
    let rest = scan_nat (acc * 10 + (c - 48)) s in if is_digit c then rest else (acc, c ∷ s)

unfoldable pub skip : Bytes → Bytes
skip [] = []
skip (c ∷ s) = let rest = skip s in if is_blank c then rest else c ∷ s

-- An optional sign: whether it was a minus, and what follows it.
unfoldable pub sign : Bytes → Bool × Bytes
sign [] = (false, [])
sign (c ∷ s) = if c == b'-' then (true, s) else if c == b'+' then (false, s) else (false, c ∷ s)

abbrev pub starts_digit : Bytes → Bool
starts_digit [] = false
starts_digit (c ∷ s) = is_digit c

-- The word that stands for a signed number; `none` if the number is no `int`.
unfoldable pub to_word : Bool → ℕ → Option ℕ
to_word true n = if leb n (2 ^ 31) then some ((2 ^ 32 - n) % 2 ^ 32) else none
to_word false n = if ltb n (2 ^ 31) then some n else none

-- What `%d` finds in the input: a word and the rest, no number, or a number that is no `int`.
pub data Number : Type 0 where
  word : ℕ → Bytes → Number
  missing : Number
  too_large : Number

read_magnitude : Bool → ℕ × Bytes → Number
unfolding to_word
read_magnitude negative (n, s) = elim (to_word negative n) [ none ↦ too_large | some w ↦ word w s ]

read_signed : Bool × Bytes → Number
unfolding read_magnitude scan_nat
read_signed (negative, s) =
    if starts_digit s then read_magnitude negative (scan_nat 0 s) else missing

unfoldable pub scan_int : Bytes → Number
unfolding read_signed skip sign
scan_int s = read_signed (sign (skip s))

abbrev pub IsDigits : Bytes → Type 0
IsDigits = All (λ c. is_digit c ≡ true)

decimal-IsDigits : (f n : ℕ) → IsDigits (decimal f n)
unfolding decimal
decimal-IsDigits zero n = tt
decimal-IsDigits (suc f) n = elim (Bool-cases (ltb n 10)) [
  | inl small ↦ rw small (ground arith, tt)
  | inr large ↦
      rw large
        (All-append _ (decimal f (n / 10)) _ (decimal-IsDigits f (n / 10)) (ground arith, tt))
]

-- A number of two digits or more ends in its last digit.
several :
    (f n : ℕ) (s : Bytes)
    → ltb n 10 ≡ false
    → decimal (suc f) n ++ s ≡ decimal f (n / 10) ++ (48 + n % 10) ∷ s
unfolding decimal
several f n s large = rw large (append_assoc (decimal f (n / 10)) ((48 + n % 10) ∷ []) s)

pub decimal-starts_digit : (f n : ℕ) (s : Bytes) → starts_digit (decimal (suc f) n ++ s) ≡ true
unfolding decimal
decimal-starts_digit zero n s = ground arith
decimal-starts_digit (suc f) n s = elim (Bool-cases (ltb n 10)) [
  | inl small ↦ rw small (ground arith)
  | inr large ↦
      subst (λ t. starts_digit t ≡ true) (sym (several (suc f) n s large))
        (decimal-starts_digit f (n / 10) ((48 + n % 10) ∷ s))
]

pub length-decimal : (f n : ℕ) → length (decimal f n) ≤ f
unfolding decimal
length-decimal zero n = omega arith
length-decimal (suc f) n =
    ground
      (arith, length-decimal f (n / 10), length-append (decimal f (n / 10)) ((48 + n % 10) ∷ []))

scan_nat-decimal : (f n : ℕ) (s : Bytes) → n < 10 ^ f → scan_nat 0 (decimal f n ++ s) ≡ scan_nat n s
unfolding decimal scan_nat
scan_nat-decimal zero n s h = ap (λ k. scan_nat k s) (omega arith)
scan_nat-decimal (suc f) n s h = elim (Bool-cases (ltb n 10)) [
  | inl small ↦ rw small (ground arith)
  | inr large ↦
      ap (scan_nat 0) (several f n s large)
      ∙ scan_nat-decimal f (n / 10) ((48 + n % 10) ∷ s) (omega (arith, pow-suc 10 f))
      ∙ ground arith
]

scan_nat-IsDelimited : (n : ℕ) (s : Bytes) → IsDelimited s → scan_nat n s ≡ (n, s)
unfolding scan_nat
scan_nat-IsDelimited n [] h = refl
scan_nat-IsDelimited n (c ∷ s) h = ground arith

scan_nat-decimal_whole :
    (n : ℕ) (s : Bytes) → n ≤ 2 ^ 31 → IsDelimited s → scan_nat 0 (decimal 10 n ++ s) ≡ (n, s)
scan_nat-decimal_whole n s small h =
    scan_nat-decimal 10 n s (omega arith) ∙ scan_nat-IsDelimited n s h

read_signed-decimal :
    (negative : Bool) (n : ℕ) {w : ℕ} (s : Bytes)
    → n ≤ 2 ^ 31
    → IsDelimited s
    → to_word negative n ≡ some w
    → read_signed (negative, decimal 10 n ++ s) ≡ word w s
unfolding read_signed
read_signed-decimal negative n s small h e =
    rw (decimal-starts_digit 9 n s, scan_nat-decimal_whole n s small h)
      (unfold read_magnitude in rw (e, read_magnitude))

-- Neither `skip` nor `sign` takes anything off a digit.
sign-skip_digit : (s : Bytes) → starts_digit s ≡ true → sign (skip s) ≡ (false, s)
unfolding sign skip
sign-skip_digit [] h = cc
sign-skip_digit (c ∷ s) h = ground arith

sign-skip_minus : (s : Bytes) → sign (skip (b'-' ∷ s)) ≡ (true, s)
unfolding sign skip
sign-skip_minus s = refl

-- Every word is read back from its print, up to what follows it.
pub scan_int-print_int :
    (w : ℕ) (s : Bytes) → w < 2 ^ 32 → IsDelimited s → scan_int (print_int w ++ s) ≡ word w s
unfolding scan_int print_int
scan_int-print_int w s small h = elim (Bool-cases (ltb w (2 ^ 31))) [
  | inl positive ↦
      rw (positive, sign-skip_digit _ (decimal-starts_digit 9 w s))
        (read_signed-decimal false w s (ground arith) h (unfold to_word in ground arith))
  | inr negative ↦
      rw (negative, sign-skip_minus)
        (read_signed-decimal true (2 ^ 32 - w) s (ground arith) h (unfold to_word in ground arith))
]

pub length-print_int : (w : ℕ) → length (print_int w) ≤ 11
unfolding print_int
length-print_int w = ground (arith, length-decimal 10 w, length-decimal 10 (2 ^ 32 - w))

IsDigits-IsGraph : (s : Bytes) → IsDigits s → All IsGraph s
IsDigits-IsGraph [] h = tt
IsDigits-IsGraph (c ∷ s) h = (digit-IsGraph c h.0, IsDigits-IsGraph s h.1)

pub print_int-IsGraph : (w : ℕ) → All IsGraph (print_int w)
unfolding print_int
print_int-IsGraph w = elim (Bool-cases (ltb w (2 ^ 31))) [
  | inl positive ↦ rw positive (IsDigits-IsGraph _ (decimal-IsDigits 10 w))
  | inr negative ↦ rw negative (ground arith, IsDigits-IsGraph _ (decimal-IsDigits 10 (2 ^ 32 - w)))
]
