-- ===== src/Text/Splice.antt =====
-- A copy behind the bytes that a buffer begins with.
use libdynpm.Base.{
  ℕ, suc, ◌+◌, ◌≤◌, ◌≡◌, ◌∙◌, refl, ap, sym, zero, [], ◌∷◌, ◌++◌, some, length, length-append, drop,
  take-append, le→leb, append_assoc, arith,
}
use libdynpm.Text.Chars.{Bytes}
use libdynpm.Text.Buffer.{write}

drop-append_add : (p r : Bytes) (m : ℕ) → drop (length p + m) (p ++ r) ≡ drop m r
drop-append_add [] r m = ap (λ (k : ℕ). drop k r) {y = m} (omega arith)
drop-append_add (c ∷ p) r m =
    ap (λ (k : ℕ). drop k (c ∷ (p ++ r))) {y = suc (length p + m)} (omega arith)
    ∙ drop-append_add p r m

-- A write behind the bytes `p` that a buffer holds.
pub write-append :
    (p c r : Bytes)
    → length c ≤ length r
    → write (length p) c (p ++ r) ≡ some ((p ++ c) ++ drop (length c) r)
unfolding write
write-append p c r h = rw (
  le→leb (length p + length c) (length (p ++ r)) (omega (arith, length-append p r)),
  take-append (length p) p r refl,
  drop-append_add p r (length c),
  append_assoc p c (drop (length c) r),
)

drop_nil : (n : ℕ) → drop {A = ℕ} n [] ≡ []
drop_nil zero = refl
drop_nil (suc n) = refl

pub drop-drop : (n k : ℕ) (s : Bytes) → drop n (drop k s) ≡ drop (k + n) s
drop-drop n zero s = ap (λ (j : ℕ). drop j s) {y = zero + n} (omega arith)
drop-drop n (suc k) [] = drop_nil n ∙ sym (drop_nil (suc k + n))
drop-drop n (suc k) (c ∷ s) =
    drop-drop n k s ∙ ap (λ (j : ℕ). drop j (c ∷ s)) {x = suc (k + n)} (omega arith)
