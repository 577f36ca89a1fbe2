-- ===== src/Tbon/Broadcast.antt =====
-- `dynpm_send_message_to_tbon_children` of src/network/tbon.c.
use libdynpm.Base.{
  ℕ, ◌≡◌, ◌≢◌, ◌∙◌, refl, sym, true, false, Bool, [], ◌∷◌, ◌++◌, List, All, Option, none, some,
  get_elem?, if◌then◌else◌,
}
use libdynpm.Text.Buffer.{Buffer}
use libdynpm.Network.Call.{Call, returned, crashed, ◌>>=◌}
use libdynpm.Network.Client.{Client, ServerConnection, send_buffer}
use libdynpm.Network.Client.Laws.{IsClient, send_buffer_lem}
use libdynpm.Tbon.Vertex.{Vertex}

-- The loop over the children, with the ids and the connection indexes from `child_id` on
unfoldable pub send_to_children : Buffer → List (Option ℕ) → List ℕ → Client → Call (Client × Bool)
send_to_children b [] indexes c = returned (c, true)
send_to_children b (none ∷ ids) indexes c = returned (c, true)
send_to_children b (some id ∷ ids) [] c = crashed
send_to_children b (some id ∷ ids) (i ∷ indexes) c = do
  (c', sent) ← send_buffer b i c
  let rest = send_to_children b ids indexes c'
  if sent then rest else returned (c', false)

-- `dynpm_send_message_to_tbon_children`
unfoldable pub send_message_to_children : Buffer → Vertex → Client → Call (Client × Bool)
unfolding send_to_children
send_message_to_children b v c = send_to_children b v.children_ids v.children_connection_indexes c

-- The connection indexes of the children, up to the first that is missing.
abbrev pub receivers : List (Option ℕ) → List ℕ → List ℕ
receivers (some id ∷ ids) (i ∷ indexes) = i ∷ receivers ids indexes
receivers _ _ = []

-- There is an index for each child.
abbrev pub HasIndexes : List (Option ℕ) → List ℕ → Type 0
HasIndexes (some id ∷ ids) [] = ⊥
HasIndexes (some id ∷ ids) (i ∷ indexes) = HasIndexes ids indexes
HasIndexes _ _ = Unit

-- No index is there twice.
abbrev pub IsDistinct : List ℕ → Type 0
IsDistinct [] = Unit
IsDistinct (i ∷ indexes) = All (λ j. i ≢ j) indexes × IsDistinct indexes

abbrev pub IsUsed : Client → ℕ → Type 0
IsUsed c i = (s : ServerConnection) × (get_elem? c.table i ≡ some (some s))

-- What a broadcast to these indexes leaves: the message stands at the end of the queue of each, and
-- every other entry is as it was.
pub record IsSent (b : Buffer) (indexes : List ℕ) (old new : Client) : Type 0 where
  pub well : IsClient new
  pub reached :
      All
        (λ i.
          (s : ServerConnection) × (get_elem? old.table i ≡ some (some s))
          × (get_elem? new.table i ≡ some (some (record s { messages = s.messages ++ b ∷ [] }))))
        indexes
  pub others : (j : ℕ) → All (λ i. i ≢ j) indexes → get_elem? new.table j ≡ get_elem? old.table j

-- What holds of each item follows from two things that hold of each.
All-zip {ℓ κ μ ν} :
    {A : Type ℓ} (P : A → Type κ) (Q : A → Type μ) (R : A → Type ν) (xs : List A)
    → ((x : A) → P x → Q x → R x)
    → All P xs
    → All Q xs
    → All R xs
All-zip P Q R [] f ps qs = tt
All-zip P Q R (x ∷ xs) f ps qs = (f x ps.0 qs.0, All-zip P Q R xs f ps.1 qs.1)

-- After one more child, whose entry is apart from those of the rest
module _ (b : Buffer) (i : ℕ) (s : ServerConnection) (rest : List ℕ) (c c₁ : Client)
    (e : get_elem? c.table i ≡ some (some s))
    (put : get_elem? c₁.table i ≡ some (some (record s { messages = s.messages ++ b ∷ [] })))
    (kept : (j : ℕ) → i ≢ j → get_elem? c₁.table j ≡ get_elem? c.table j)
    (apart : All (λ j. i ≢ j) rest) where
  still-IsUsed : All (IsUsed c) rest → All (IsUsed c₁) rest
  still-IsUsed used =
      All-zip (λ j. i ≢ j) (IsUsed c) (IsUsed c₁) rest (λ j ne u. (u.0, kept j ne ∙ u.1)) apart used

  one_more : (c' : Client) → IsSent b rest c₁ c' → IsSent b (i ∷ rest) c c'
  one_more c' v = record {
    well = v.well;
    reached = (
      (
        s,
        e,
        v.others i (
              All-zip (λ j. i ≢ j) (λ j. i ≢ j) (λ j. j ≢ i) rest (λ j ne _ same. ne (sym same))
                apart apart)
            ∙ put,
      ),
      All-zip (λ j. i ≢ j)
          (λ j.
            (t : ServerConnection) × (get_elem? c₁.table j ≡ some (some t))
            × (get_elem? c'.table j ≡ some (some (record t { messages = t.messages ++ b ∷ [] }))))
          (λ j.
            (t : ServerConnection) × (get_elem? c.table j ≡ some (some t))
            × (get_elem? c'.table j ≡ some (some (record t { messages = t.messages ++ b ∷ [] }))))
          rest (λ j ne r. (r.0, sym (kept j ne) ∙ r.1, r.2)) apart v.reached,
    );
    others = λ j h. v.others j h.1 ∙ kept j h.0;
  }

send_to_children_lem :
    (b : Buffer) (ids : List (Option ℕ)) (indexes : List ℕ) (c : Client)
    → IsClient c
    → HasIndexes ids indexes
    → IsDistinct (receivers ids indexes)
    → All (IsUsed c) (receivers ids indexes)
    → (c' : Client) × (send_to_children b ids indexes c ≡ returned (c', true))
      × IsSent b (receivers ids indexes) c c'
unfolding send_to_children
send_to_children_lem b [] indexes c v enough distinct used =
    (c, refl, record { well = v; reached = tt; others = λ j h. refl })
send_to_children_lem b (none ∷ ids) indexes c v enough distinct used =
    (c, refl, record { well = v; reached = tt; others = λ j h. refl })
send_to_children_lem b (some id ∷ ids) [] c v enough distinct used = absurd enough
send_to_children_lem b (some id ∷ ids) (i ∷ indexes) c v enough distinct used =
    let (s, e) = used.0 in
    let (c₁, ran, put, kept, v₁) = send_buffer_lem c i s b v e in
    let rest = receivers ids indexes in
    let (c', sent, all) =
      send_to_children_lem b ids indexes c₁ v₁ enough distinct.1
        (still-IsUsed b i s rest c c₁ e put kept distinct.0 used.1) in
    (c', rw ran sent, one_more b i s rest c c₁ e put kept distinct.0 c' all)

-- A message for the children of a vertex, each with a connection index of its own at an entry in
-- use of a well-formed client: the call returns 0, the message stands at the end of the queue of
-- each child and nowhere else, and the client is well formed.
pub send_message_to_children_lem :
    (b : Buffer) (v : Vertex) (c : Client)
    → IsClient c
    → HasIndexes v.children_ids v.children_connection_indexes
    → IsDistinct (receivers v.children_ids v.children_connection_indexes)
    → All (IsUsed c) (receivers v.children_ids v.children_connection_indexes)
    → (c' : Client) × (send_message_to_children b v c ≡ returned (c', true))
      × IsSent b (receivers v.children_ids v.children_connection_indexes) c c'
unfolding send_message_to_children
send_message_to_children_lem b v c well enough distinct used =
    send_to_children_lem b v.children_ids v.children_connection_indexes c well enough distinct used
