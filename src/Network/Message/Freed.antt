-- ===== src/Network/Message/Freed.antt =====
-- The functions that send a message free what the caller gave up, and no block twice.
use libdynpm.Base.{
  ℕ, ◌≡◌, ◌≢◌, refl, ap, sym, true, false, Bool, [], ◌∷◌, ◌++◌, Option, none, some, append_assoc,
  inl, inr, ◌⊎◌,
}
use libdynpm.Text.Outcome.{Outcome, done, ◌>>=◌}
use libdynpm.Memory.{Heap, free}
use libdynpm.Memory.Blocks.{
  AreBlocks-release, AreBlocks-right, without, AreBlocks, OnlyFreed, AreBlocks-left,
  AreBlocks-without, without-append, without-OnlyFreed, release,
}
use libdynpm.Memory.Freeing.{free_lem}
use libdynpm.Protocol.Header.{MessageType}
use libdynpm.Protocol.Free.{free_header}
use libdynpm.Protocol.Free.Structs.{
  Pointers, owned, IsAt, Frees, is_block, free_register-Frees, free_deregister-Frees,
  free_create_tbon-Frees, free_resource_offer-Frees, free_ready-Frees,
  free_allocation_request-Frees, free_dynamic_pm_launch-Frees, free_dynamic_io_out-Frees,
  free_report_process_data-Frees, free_reallocation_start-Frees,
}
use libdynpm.Protocol.Free.Manager.{free_register_process_manager-Frees}
use libdynpm.Network.Message.Ownership.{
  client_free, client_send_frees, server_free, server_send_frees, ClientOwns, ServerOwns,
  client_blocks, server_blocks, AreApart, registers, deregisters, creates, offers, launches,
  manages, requests, unknown, tbon_ready, pm_ready, prints, all_done, reports, starts,
}

-- The header and two further blocks
header_lem :
    (header p q : ℕ) (h : Heap)
    → header ≢ 0
    → AreBlocks (header ∷ p ∷ q ∷ []) h
    → (free_header header h >>= λ h₁. free p h₁ >>= λ h₂. free q h₂)
      ≡ done (without (header ∷ p ∷ q ∷ []) h)
unfolding without free_header
header_lem header p q h ne (live, apart, blocks) =
    let (live', apart', blocks') = AreBlocks-release header (p ∷ q ∷ []) h apart blocks in
    let (live'', apart'', none_left) =
      AreBlocks-release p (q ∷ []) (release header h) apart' blocks' in
    rw
      (
        is_block header ne,
        free_lem header h live,
        free_lem p (release header h) live',
        free_lem q (release p (release header h)) live'',
      )
      refl

module _ (header msg buffer : ℕ) (m : Pointers) (h : Heap)
    (v : AreApart header msg buffer m h) where
  -- The end of the functions, after a message has been freed.
  after_message :
      (free_msg : ℕ → Heap → Outcome Heap)
      → Frees free_msg m
      → (free_msg msg h >>= λ h₁. free_header header h₁ >>= λ h₂. free buffer h₂)
        ≡ done (without ((owned m ++ msg ∷ []) ++ header ∷ buffer ∷ []) h)
  unfolding without free_header
  after_message free_msg frees =
      let ps = owned m ++ msg ∷ [] in
      let at : IsAt msg m h = record {
        not_null = v.not_null;
        structure = v.structure;
        blocks = AreBlocks-left ps (header ∷ buffer ∷ []) h v.blocks;
        array = v.array;
      } in
      let (live, apart, blocks) = AreBlocks-without ps (header ∷ buffer ∷ []) h v.blocks in
      let (live', apart', none_left) =
        AreBlocks-release header (buffer ∷ []) (without ps h) apart blocks in
      rw
        (
          frees msg h at,
          is_block header v.header_not_null,
          free_lem header (without ps h) live,
          free_lem buffer (release header (without ps h)) live',
        )
        (ap done (sym (without-append ps (header ∷ buffer ∷ []) h)))

  -- The message, the header and the buffer themselves
  three_blocks : AreBlocks (header ∷ msg ∷ buffer ∷ []) h × AreBlocks (header ∷ buffer ∷ msg ∷ []) h
  three_blocks =
      let (live, (other, (other', all)), (live', (apart, all'), (live'', apart'', none_left))) =
        AreBlocks-right (owned m) (msg ∷ header ∷ buffer ∷ []) h
          (rw (append_assoc (owned m) (msg ∷ []) (header ∷ buffer ∷ [])) at v.blocks) in
      (
        (
          live',
          ((λ ne e. other v.not_null (sym e)), (apart, tt)),
          (live, (other', tt), (live'', tt, tt)),
        ),
        (
          live',
          (apart, ((λ ne e. other v.not_null (sym e)), tt)),
          (live'', ((λ ne e. other' v.not_null (sym e)), tt), (live, tt, tt)),
        ),
      )

-- The function of the case frees a message of that structure, or there is no function.
abbrev Cases : Option (ℕ → Heap → Outcome Heap) → Pointers → Bool → Type 0
Cases case m all =
    ((all ≡ true) × (f : ℕ → Heap → Outcome Heap) × (case ≡ some f) × Frees f m)
    ⊎ ((all ≡ false) × (case ≡ none))

client_free-Cases :
    (type : Option MessageType) (m : Pointers) (all : Bool)
    → ClientOwns type m all
    → Cases (client_free type) m all
unfolding client_free
client_free-Cases type m all (registers {p}) = inl (refl, _, refl, free_register-Frees p)
client_free-Cases type m all (deregisters {p}) = inl (refl, _, refl, free_deregister-Frees p)
client_free-Cases type m all (creates {p}) = inl (refl, _, refl, free_create_tbon-Frees p)
client_free-Cases type m all offers = inl (refl, _, refl, free_resource_offer-Frees)
client_free-Cases type m all (launches {p}) = inl (refl, _, refl, free_dynamic_pm_launch-Frees p)
client_free-Cases type m all (manages {host} {arr} {apps}) =
    inl (refl, _, refl, free_register_process_manager-Frees host arr apps)
client_free-Cases type m all requests = inl (refl, _, refl, free_allocation_request-Frees)
client_free-Cases type m all (unknown e) = inr (refl, e)

server_free-Cases :
    (type : Option MessageType) (m : Pointers) (all : Bool)
    → ServerOwns type m all
    → Cases (server_free type) m all
unfolding server_free
server_free-Cases type m all offers = inl (refl, _, refl, free_resource_offer-Frees)
server_free-Cases type m all tbon_ready = inl (refl, _, refl, free_ready-Frees)
server_free-Cases type m all pm_ready = inl (refl, _, refl, free_ready-Frees)
server_free-Cases type m all (prints {p} {q}) = inl (refl, _, refl, free_dynamic_io_out-Frees p q)
server_free-Cases type m all all_done = inl (refl, _, refl, free_ready-Frees)
server_free-Cases type m all (reports {p}) = inl (refl, _, refl, free_report_process_data-Frees p)
server_free-Cases type m all (starts {p} {q} {r}) =
    inl (refl, _, refl, free_reallocation_start-Frees p q r)
server_free-Cases type m all (unknown e) = inr (refl, e)

-- `_dynpm_internal_send_message_to_server`, for a header, a message with the pointers of its type,
-- and the buffer, where none is `NULL` but pointers of the message, and no block is in use twice:
-- no free is wrong. For a type that the client sends, exactly the message, all blocks that it owns,
-- the header and the buffer are freed; for any other type exactly the header, the structure of the
-- message and the buffer, and what the message owns stays.
pub client_send_frees_lem :
    (type : Option MessageType) (m : Pointers) (all : Bool) (header msg buffer : ℕ) (h : Heap)
    → ClientOwns type m all
    → AreApart header msg buffer m h
    → (h' : Heap) × (client_send_frees type header msg buffer h ≡ done h')
      × OnlyFreed (client_blocks all m header msg buffer) h h'
unfolding client_send_frees
client_send_frees_lem type m all header msg buffer h owns v = (
  without (client_blocks all m header msg buffer) h,
  elim (client_free-Cases type m all owns) [
    | inl (known, f, case, frees) ↦
        rw (known, client_send_frees, case) (after_message header msg buffer m h v f frees)
    | inr (unknown_type, case) ↦
        rw (unknown_type, client_send_frees, case)
          (header_lem header msg buffer h v.header_not_null
            (three_blocks header msg buffer m h v).0)
  ],
  without-OnlyFreed (client_blocks all m header msg buffer) h,
)

-- `dynpm_send_message_to_client_connection`, for a connection that is not `NULL`, and a header, a
-- message and a buffer as for the client: no free is wrong. For a type that the server sends,
-- exactly the message, all blocks that it owns, the header and the buffer are freed; for any other
-- type exactly the header, the buffer and the structure of the message, and what the message owns
-- stays.
pub server_send_frees_lem :
    (type : Option MessageType) (m : Pointers) (all : Bool) (header msg buffer : ℕ) (h : Heap)
    → ServerOwns type m all
    → AreApart header msg buffer m h
    → (h' : Heap) × (server_send_frees type header msg buffer h ≡ done h')
      × OnlyFreed (server_blocks all m header msg buffer) h h'
unfolding server_send_frees
server_send_frees_lem type m all header msg buffer h owns v = (
  without (server_blocks all m header msg buffer) h,
  elim (server_free-Cases type m all owns) [
    | inl (known, f, case, frees) ↦
        rw (known, server_send_frees, case) (after_message header msg buffer m h v f frees)
    | inr (unknown_type, case) ↦
        rw (unknown_type, server_send_frees, case)
          (header_lem header buffer msg h v.header_not_null
            (three_blocks header msg buffer m h v).1)
  ],
  without-OnlyFreed (server_blocks all m header msg buffer) h,
)
