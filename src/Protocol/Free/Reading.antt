-- ===== src/Protocol/Free/Reading.antt =====
-- What the functions that read a message allocate, and that freeing the message takes it all back.
use libdynpm.Base.{refl, ℕ, ◌≡◌, ◌∙◌, inl, inr, sym, [], ◌∷◌, ◌++◌, some}
use libdynpm.Text.Outcome.{Outcome, done, ◌>>=◌}
use libdynpm.Memory.{Heap, free}
use libdynpm.Memory.Blocks.{release, without, without-OnlyFreed, release-other}
use libdynpm.Memory.Freeing.{free_lem}
use libdynpm.Protocol.Free.{
  free_register_connection_msg, free_deregister_connection_msg, free_resource_offer_msg,
  free_create_tbon_msg, free_ready_msg, free_deregister_process_manager_msg,
  free_allocation_request_msg, free_reallocation_start_msg, free_reallocation_complete_msg,
}
use libdynpm.Protocol.Free.Structs.{
  Pointers, plain, one, three, words, owned, IsAt, Frees, HasArray, free_register-Frees,
  free_deregister-Frees, free_resource_offer-Frees, free_create_tbon-Frees, free_ready-Frees,
  free_deregister_process_manager-Frees, free_allocation_request-Frees,
  free_reallocation_start-Frees, free_reallocation_complete-Frees,
}
use libdynpm.Memory.Allocating.{
  malloc, malloc_all, AreNew, malloc_other, malloc_self, malloc_all-other, differ_from, in_or_apart,
  AreNew-malloc, malloc_all-All, release-All, All-AreBlocks, AreNew-append, gone_All, Differs-All,
  left_and_last,
}

-- The memory of `dynpm_deserialize_register_connection_msg`: what its calls of `malloc` return, in
-- order, is the header, the message, and each text. The message is made with the pointers that are
-- put in it.
unfoldable pub register_memory : ℕ → ℕ → ℕ → Heap → Outcome Heap
register_memory header msg hostname h =
    free header (malloc hostname [] (malloc msg (hostname ∷ []) (malloc header [] h)))

-- The same of the functions that read the other messages without a payload
unfoldable pub deregister_memory : ℕ → ℕ → ℕ → Heap → Outcome Heap
deregister_memory header msg hostname h =
    free header (malloc hostname [] (malloc msg (hostname ∷ []) (malloc header [] h)))

unfoldable pub resource_offer_memory : ℕ → ℕ → Heap → Outcome Heap
resource_offer_memory header msg h = free header (malloc msg [] (malloc header [] h))

unfoldable pub create_tbon_memory : ℕ → ℕ → ℕ → Heap → Outcome Heap
create_tbon_memory header msg nodes h =
    free header (malloc nodes [] (malloc msg (nodes ∷ []) (malloc header [] h)))

unfoldable pub ready_memory : ℕ → ℕ → Heap → Outcome Heap
ready_memory header msg h = free header (malloc msg [] (malloc header [] h))

unfoldable pub deregister_manager_memory : ℕ → ℕ → ℕ → Heap → Outcome Heap
deregister_manager_memory header msg hostname h =
    free header (malloc hostname [] (malloc msg (hostname ∷ []) (malloc header [] h)))

unfoldable pub allocation_request_memory : ℕ → ℕ → Heap → Outcome Heap
allocation_request_memory header msg h = free header (malloc msg [] (malloc header [] h))

unfoldable pub reallocation_start_memory : ℕ → ℕ → ℕ → ℕ → ℕ → Heap → Outcome Heap
reallocation_start_memory header msg current delta updated h =
    let structure = malloc msg (current ∷ delta ∷ updated ∷ []) (malloc header [] h) in
    free header (malloc updated [] (malloc delta [] (malloc current [] structure)))

unfoldable pub reallocation_complete_memory : ℕ → ℕ → ℕ → Heap → Outcome Heap
reallocation_complete_memory header msg nodes h =
    free header (malloc nodes [] (malloc msg (nodes ∷ []) (malloc header [] h)))

-- What they have in common
abbrev pub read_memory : ℕ → ℕ → Pointers → Heap → Outcome Heap
read_memory header msg m h =
    free header (malloc_all (owned m) (malloc msg (words m) (malloc header [] h)))

-- The memory of a function that reads a message with these pointers, and the function that frees it
pub data Reads : (ℕ → ℕ → Heap → Outcome Heap) → (ℕ → Heap → Outcome Heap) → Pointers → Type 0 where
  register :
      {p : ℕ}
      → Reads (λ header msg. register_memory header msg p) free_register_connection_msg (one p)
  deregister :
      {p : ℕ}
      → Reads (λ header msg. deregister_memory header msg p) free_deregister_connection_msg (one p)
  offer : Reads resource_offer_memory free_resource_offer_msg plain
  create :
      {p : ℕ} → Reads (λ header msg. create_tbon_memory header msg p) free_create_tbon_msg (one p)
  ready : Reads ready_memory free_ready_msg plain
  deregister_manager :
      {p : ℕ}
      → Reads
          (λ header msg. deregister_manager_memory header msg p)
          free_deregister_process_manager_msg
          (one p)
  request : Reads allocation_request_memory free_allocation_request_msg plain
  start :
      {p q r : ℕ}
      → Reads
          (λ header msg. reallocation_start_memory header msg p q r)
          free_reallocation_start_msg
          (three p q r)
  complete :
      {p : ℕ}
      → Reads
          (λ header msg. reallocation_complete_memory header msg p)
          free_reallocation_complete_msg
          (one p)

read-Frees :
    (r : ℕ → ℕ → Heap → Outcome Heap) (f : ℕ → Heap → Outcome Heap) (m : Pointers)
    → Reads r f m
    → Frees f m
read-Frees r f m (register {p}) = free_register-Frees p
read-Frees r f m (deregister {p}) = free_deregister-Frees p
read-Frees r f m offer = free_resource_offer-Frees
read-Frees r f m (create {p}) = free_create_tbon-Frees p
read-Frees r f m ready = free_ready-Frees
read-Frees r f m (deregister_manager {p}) = free_deregister_process_manager-Frees p
read-Frees r f m request = free_allocation_request-Frees
read-Frees read f m (start {p} {q} {r}) = free_reallocation_start-Frees p q r
read-Frees r f m (complete {p}) = free_reallocation_complete-Frees p

Reads-eq :
    (r : ℕ → ℕ → Heap → Outcome Heap) (f : ℕ → Heap → Outcome Heap) (m : Pointers)
    → Reads r f m
    → (header msg : ℕ) (h : Heap) → r header msg h ≡ read_memory header msg m h
unfolding register_memory deregister_memory resource_offer_memory create_tbon_memory ready_memory
    deregister_manager_memory allocation_request_memory reallocation_start_memory
    reallocation_complete_memory
Reads-eq r f m register header msg h = refl
Reads-eq r f m deregister header msg h = refl
Reads-eq r f m offer header msg h = refl
Reads-eq r f m create header msg h = refl
Reads-eq r f m ready header msg h = refl
Reads-eq r f m deregister_manager header msg h = refl
Reads-eq r f m request header msg h = refl
Reads-eq r f m start header msg h = refl
Reads-eq r f m complete header msg h = refl

Reads-HasArray :
    (r : ℕ → ℕ → Heap → Outcome Heap) (f : ℕ → Heap → Outcome Heap) (m : Pointers)
    → Reads r f m
    → (h : Heap) → HasArray m h
Reads-HasArray r f m register h = tt
Reads-HasArray r f m deregister h = tt
Reads-HasArray r f m offer h = tt
Reads-HasArray r f m create h = tt
Reads-HasArray r f m ready h = tt
Reads-HasArray r f m deregister_manager h = tt
Reads-HasArray r f m request h = tt
Reads-HasArray r f m start h = tt
Reads-HasArray r f m complete h = tt

-- The heap after a message has been read, without the header
abbrev after_read : ℕ → ℕ → Pointers → Heap → Heap
after_read header msg m h =
    release header (malloc_all (owned m) (malloc msg (words m) (malloc header [] h)))

-- The addresses of the header, of the structure and of the texts are new.
read_lem :
    (header msg : ℕ) (m : Pointers) (h : Heap)
    → AreNew (header ∷ msg ∷ owned m) h
    → read_memory header msg m h ≡ done (after_read header msg m h)
read_lem header msg m h (ne, absent, (apart, aparts), (ne', absent', apart', new)) =
    free_lem header (malloc_all (owned m) (malloc msg (words m) (malloc header [] h))) (λ ne. (
      [],
      malloc_all-other (owned m) header (malloc msg (words m) (malloc header [] h))
            (differ_from header (owned m) aparts)
          ∙ malloc_other msg header (words m) (malloc header [] h) (λ e. apart (sym e))
          ∙ malloc_self header [] h,
    ))

read-IsAt :
    (r : ℕ → ℕ → Heap → Outcome Heap) (f : ℕ → Heap → Outcome Heap) (header msg : ℕ) (m : Pointers)
    (h : Heap)
    → Reads r f m
    → AreNew (header ∷ msg ∷ owned m) h
    → IsAt msg m (after_read header msg m h)
read-IsAt r f header msg m h reads (ne, absent, (apart, aparts), (ne', absent', apart', new)) =
    let started = malloc msg (words m) (malloc header [] h) in
    let full = malloc_all (owned m) started in
    let at : release header full msg ≡ some (words m) =
      release-other header msg full (λ ne. apart)
      ∙ malloc_all-other (owned m) msg started (differ_from msg (owned m) apart')
      ∙ malloc_self msg (words m) (malloc header [] h) in
    let started_new =
      AreNew-malloc msg (words m) (owned m) (malloc header [] h) apart'
        (AreNew-malloc header [] (owned m) h aparts new) in
    record {
      not_null = ne';
      structure = at;
      blocks =
          All-AreBlocks (owned m) (words m) msg (release header full) started
            (release-All header (owned m) full aparts
              (malloc_all-All (owned m) started started_new))
            at started_new apart';
      array = Reads-HasArray r f m reads (release header full);
    }

-- A message without a payload that is read into new blocks, as the functions do that read one with no
-- pointer, one text or three texts, and then freed by the function of its type: no free is wrong, and
-- the memory is as it was before. Neither loses a block.
pub read_then_free :
    (r : ℕ → ℕ → Heap → Outcome Heap) (f : ℕ → Heap → Outcome Heap) (header msg : ℕ) (m : Pointers)
    (h : Heap)
    → Reads r f m
    → AreNew (header ∷ msg ∷ owned m) h
    → (h' : Heap) × ((r header msg h >>= λ g. f msg g) ≡ done h') × ((b : ℕ) → h' b ≡ h b)
unfolding without
read_then_free r f header msg m h reads v =
    let (ne, absent, (apart, aparts), (ne', absent', apart', new)) = v in
    let blocks = header ∷ (owned m ++ msg ∷ []) in
    let full = malloc_all (owned m) (malloc msg (words m) (malloc header [] h)) in
    let freed = without-OnlyFreed blocks full in
    (
      without blocks full,
      rw (Reads-eq r f m reads header msg h, read_lem header msg m h v)
          (read-Frees r f m reads msg (after_read header msg m h)
            (read-IsAt r f header msg m h reads v)),
      (λ b. elim (in_or_apart b blocks) [
        | inl others ↦
            let (left, last) = left_and_last b msg (owned m) others.1 in
            freed.kept b (Differs-All b blocks others)
            ∙ malloc_all-other (owned m) b (malloc msg (words m) (malloc header [] h)) left
            ∙ malloc_other msg b (words m) (malloc header [] h) last
            ∙ malloc_other header b [] h others.0
        | inr is_in ↦
            is_in (λ p. without blocks full p ≡ h p)
              (gone_All blocks h (without blocks full) freed.gone
                ((ne, absent), AreNew-append (owned m) msg h new ne' absent'))
      ]),
    )
