-- ===== src/Network/Server/Unlinking.antt =====
-- What `LIST_REMOVE` leaves of the list of connections of src/network/server.c.
use libdynpm.Base.{
  ℕ, ◌≡◌, refl, ap, sym, ◌∙◌, true, false, [], ◌∷◌, ◌++◌, List, ◌==◌, ==_iff, Bool-cases, inl, inr,
}
use libdynpm.Network.Server.Registry.{is_listed, unlink}

-- No address is in the list twice.
abbrev pub AreDistinct : List ℕ → Type 0
AreDistinct [] = Unit
AreDistinct (b ∷ addresses) = (is_listed b addresses ≡ false) × AreDistinct addresses

-- A listed address is between others, and is taken out between them.
pub unlink_lem :
    (a : ℕ) (addresses : List ℕ)
    → is_listed a addresses ≡ true
    → AreDistinct addresses
    → (before after : List ℕ) × (addresses ≡ before ++ a ∷ after)
      × (unlink a addresses ≡ before ++ after)
      × (is_listed a (before ++ after) ≡ false)
unfolding is_listed unlink
unlink_lem a [] listed apart = cc listed
unlink_lem a (b ∷ addresses) listed (first, apart) = elim (Bool-cases (b == a)) [
  | inl same ↦
      let e : b ≡ a = (==_iff b a).0 same in
      (
        [],
        addresses,
        ap (λ k. k ∷ addresses) e,
        rw same refl,
        ap (λ k. is_listed k addresses) (sym e) ∙ first,
      )
  | inr other ↦
      let inside : is_listed a addresses ≡ true = (rw other at listed) in
      let (before, after, split, out, gone) = unlink_lem a addresses inside apart in
      (b ∷ before, after, ap (λ l. b ∷ l) split, rw other (ap (λ l. b ∷ l) out), rw other gone)
]
