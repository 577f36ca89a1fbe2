-- ===== src/Network/Server/Lookup.antt =====
-- What `dynpm_find_client_connection_in_list` finds.
use libdynpm.Base.{
  ℕ, ◌≡◌, inl, inr, ◌⊎◌, Bool-cases, ==_iff, refl, sym, ◌∙◌, true, false, [], ◌∷◌, List, Option,
  none, some, ◌==◌, All, arith,
}
use native.Mathlib.Decide.{ℕ_discrete}
use mathlib.Core.Path.{subst}
use libdynpm.Protocol.Connection.{RegisterConnectionMsg}
use libdynpm.Text.Chars.{Bytes, same_text, same_text_sound, same_text_refl}
use libdynpm.Network.Call.{Call, returned}
use libdynpm.Network.Server.Registry.{
  ClientConnection, Server, compare_id_host, find_from, find_client, is_listed, register_client,
}

-- The connection is registered with this host and process id.
abbrev pub IsRegistered : ClientConnection → Bytes → ℕ → Type 0
IsRegistered o host pid = (o.pid ≡ some pid) × (o.host ≡ some host)

-- The connection has registered at all.
abbrev pub HasRegistered : ClientConnection → Type 0
HasRegistered o = (pid : ℕ) × (host : Bytes) × (o.pid ≡ some pid) × (o.host ≡ some host)

compare-IsRegistered :
    (o : ClientConnection) (host : Bytes) (pid : ℕ)
    → HasRegistered o
    → (IsRegistered o host pid × (compare_id_host o host pid ≡ returned true))
      ⊎ ((¬ IsRegistered o host pid) × (compare_id_host o host pid ≡ returned false))
unfolding compare_id_host
compare-IsRegistered o host pid (p, h, is_pid, is_host) = elim (Bool-cases (p == pid)) [
  | inl same_pid ↦ elim (Bool-cases (same_text h host)) [
    | inl same_host ↦
        let is_same : h ≡ host = same_text_sound h host same_host in
        inl ((ground arith, ground arith), ground arith)
    | inr other_host ↦ inr (
      (λ r.
          let given : some h ≡ some host = sym is_host ∙ r.1 in
          let is_same : h ≡ host = cc in
          let clash : same_text host host ≡ false = rw is_same at other_host in
          cc (same_text_refl host)),
      ground arith,
    )
  ]
  | inr other_pid ↦ inr (
    (λ r.
        let given : some p ≡ some pid = sym is_pid ∙ r.0 in
        let is_same : p ≡ pid = cc in
        let known : (p == pid) ≡ true = (==_iff p pid).1 is_same in cc),
    ground arith,
  )
]

-- The result of a search in a list of registered connections: nothing, and none of them matches, or one
-- of them, which does.
abbrev pub Found : (ℕ → ClientConnection) → List ℕ → Bytes → ℕ → Call (Option ℕ) → Type 0
Found objects addresses host pid r =
    ((r ≡ returned none)
      × ((a : ℕ) → is_listed a addresses ≡ true → ¬ IsRegistered (objects a) host pid))
    ⊎ ((a : ℕ) × (r ≡ returned (some a))
        × (is_listed a addresses ≡ true)
        × IsRegistered (objects a) host pid)

is_listed_head : (a : ℕ) (addresses : List ℕ) → is_listed a (a ∷ addresses) ≡ true
unfolding is_listed
is_listed_head a addresses = ground arith

is_listed_tail :
    (a b : ℕ) (addresses : List ℕ)
    → is_listed a addresses ≡ true
    → is_listed a (b ∷ addresses) ≡ true
unfolding is_listed
is_listed_tail a b addresses h = ground arith

absent_tail :
    (objects : ℕ → ClientConnection) (b : ℕ) (addresses : List ℕ) (host : Bytes) (pid : ℕ)
    → ¬ IsRegistered (objects b) host pid
    → ((a : ℕ) → is_listed a addresses ≡ true → ¬ IsRegistered (objects a) host pid)
    → (a : ℕ) → is_listed a (b ∷ addresses) ≡ true
    → ¬ IsRegistered (objects a) host pid
unfolding is_listed
absent_tail objects b addresses host pid no_head no_tail a h = elim (ℕ_discrete b a) [
  | yes e ↦ subst (λ k. ¬ IsRegistered (objects k) host pid) e no_head
  | no ne ↦ no_tail a (ground arith)
]

find_from_lem :
    (objects : ℕ → ClientConnection) (addresses : List ℕ) (host : Bytes) (pid : ℕ)
    → All (λ a. HasRegistered (objects a)) addresses
    → Found objects addresses host pid (find_from objects addresses host pid)
unfolding find_from
find_from_lem objects [] host pid h = inl (refl, λ a listed. unfold is_listed in cc listed)
find_from_lem objects (b ∷ addresses) host pid h =
    elim (compare-IsRegistered (objects b) host pid h.0) [
      | inl (matches, tested) ↦ inr (b, rw tested, is_listed_head b addresses, matches)
      | inr (differs, tested) ↦ elim (find_from_lem objects addresses host pid h.1) [
        | inl (nothing, absent) ↦
            inl (rw (tested, nothing), absent_tail objects b addresses host pid differs absent)
        | inr (a, found, listed, matches) ↦
            inr (a, rw (tested, found), is_listed_tail a b addresses listed, matches)
      ]
    ]

-- Where every listed connection has registered, a search ends, and returns a listed connection of this
-- host and process id, or nothing if there is none.
pub find_client_lem :
    (s : Server) (host : Bytes) (pid : ℕ)
    → All (λ a. HasRegistered (s.objects a)) s.head
    → Found s.objects s.head host pid (find_client host pid s)
unfolding find_client
find_client_lem s host pid h = find_from_lem s.objects s.head host pid h

-- A registration at a listed connection is found: where every listed connection has registered
-- after it, the search for its host and process id returns a listed connection of that host and
-- process id.
pub find-register :
    (s : Server) (a : ℕ) (m : RegisterConnectionMsg)
    → is_listed a s.head ≡ true
    → All (λ b. HasRegistered ((register_client a m s).objects b)) s.head
    → (b : ℕ) × (find_client m.hostname m.pid (register_client a m s) ≡ returned (some b))
      × (is_listed b s.head ≡ true)
      × IsRegistered ((register_client a m s).objects b) m.hostname m.pid
find-register s a m listed h =
    elim (find_client_lem (register_client a m s) m.hostname m.pid (unfold register_client in h)) [
      | inl (nothing, absent) ↦
          absurd
            (absent a (unfold register_client in listed) (unfold register_client in ground arith))
      | inr (b, found, is_in, matches) ↦ (b, found, unfold register_client in is_in, matches)
    ]
