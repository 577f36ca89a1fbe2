-- ===== src/Text/Chars.antt =====
-- Bytes, literals as bytes, and the classes of bytes that the formats tell apart.
use Prim.Native.Char.{code}
use libdynpm.Base.{
  ℕ, ◌≡◌, ◌≢◌, Bool, true, false, ◌&&◌, ◌||◌, List, [], ◌∷◌, String, ◌==◌, if◌then◌else◌, refl, leb,
  All, arith,
}

abbrev pub Bytes : Type 0
Bytes = List ℕ

-- The bytes of a literal (all of them are ASCII here).
abbrev pub codes : String → Bytes
codes String.[] = []
codes (String.◌∷◌ c s) = code c ∷ codes s

-- `isspace` in the C locale.
abbrev pub is_blank : ℕ → Bool
is_blank c = c == 32 || (leb 9 c && leb c 13)

abbrev pub is_digit : ℕ → Bool
is_digit c = leb 48 c && leb c 57

abbrev pub IsGraph : ℕ → Type 0
IsGraph c = (is_blank c ≡ false) × (c ≢ 0)

-- A text that one `%s` reads whole: it is not empty, and holds no white space and no NUL.
abbrev pub IsToken : Bytes → Type 0
IsToken t = (t ≢ []) × All IsGraph t

-- The head of `s` ends a number and a token: `s` is used up, or begins with white space.
abbrev pub IsDelimited : Bytes → Type 0
IsDelimited [] = Unit
IsDelimited (c ∷ s) = is_blank c ≡ true

pub digit-IsGraph : (c : ℕ) → is_digit c ≡ true → IsGraph c
digit-IsGraph c h = ground arith

-- `!strcmp(a, b)`
unfoldable pub same_text : Bytes → Bytes → Bool
same_text [] [] = true
same_text [] (_ ∷ _) = false
same_text (_ ∷ _) [] = false
same_text (a ∷ s) (b ∷ t) = let rest = same_text s t in if a == b then rest else false

pub same_text_sound : (s t : Bytes) → same_text s t ≡ true → s ≡ t
unfolding same_text
same_text_sound [] [] h = refl
same_text_sound [] (b ∷ t) h = cc
same_text_sound (a ∷ s) [] h = cc
same_text_sound (a ∷ s) (b ∷ t) h = ground (arith, same_text_sound s t)

pub same_text_refl : (s : Bytes) → same_text s s ≡ true
unfolding same_text
same_text_refl [] = refl
same_text_refl (a ∷ s) = ground (arith, same_text_refl s)
