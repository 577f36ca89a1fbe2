-- ===== src/Text/Format.antt =====
-- Format strings and `sprintf`. The conversions that the code uses are `%d` and `%s`.
use libdynpm.Base.{ℕ, List, [], ◌∷◌, ◌++◌, ◌==◌, if◌then◌else◌}
use libdynpm.Text.Chars.{Bytes}
use libdynpm.Text.Decimal.{print_int}

pub data Directive : Type 0 where
  lit : ℕ → Directive  -- an ordinary byte of the format
  int : Directive  -- `%d`
  string : Directive  -- `%s`

-- A `%` with another byte behind it stands for that byte: `%%` is the only such case in C.
unfoldable pub directives : Bytes → List Directive
directives [] = []
directives (c ∷ []) = lit c ∷ []
directives (c ∷ d ∷ s) =
    let plain = lit c ∷ directives (d ∷ s) in
    let special = (if d == b'd' then int else if d == b's' then string else lit d) ∷ directives s in
    if c == b'%' then special else plain

-- An argument of `sprintf`: a 32-bit word or a string.
pub data Value : Type 0 where
  num : ℕ → Value
  str : Bytes → Value

-- The text that `sprintf` writes, without its NUL. The calls pass an argument of the right kind for
-- each conversion; for others C gives no meaning, and the text ends here.
unfoldable pub print : List Directive → List Value → Bytes
print [] vs = []
print (lit c ∷ ds) vs = c ∷ print ds vs
print (int ∷ ds) (num w ∷ vs) = print_int w ++ print ds vs
print (string ∷ ds) (str s ∷ vs) = s ++ print ds vs
print _ _ = []
