-- ===== src/Network/Client/Release.antt =====
-- What the thread of a connection of src/network/client.c frees at its end.
use libdynpm.Base.{ℕ, ◌≡◌, ◌∙◌, refl, [], ◌∷◌, some}
use libdynpm.Text.Outcome.{Outcome, done, ◌>>=◌}
use libdynpm.Memory.{Heap, free, free_bare}
use libdynpm.Memory.Blocks.{AreBlocks, without, release, release-other, AreBlocks-release}
use libdynpm.Memory.Freeing.{free_lem, free_bare_lem}

-- The end of `_server_event_connection_thread`: the words of the connection are `host` and `port`.
unfoldable pub free_connection : ℕ → Heap → Outcome Heap
free_connection a h = do h₁ ← free_bare a 0 h; h₂ ← free_bare a 1 h₁; free a h₂

pub free_connection_lem :
    (a host port : ℕ) (h : Heap)
    → h a ≡ some (host ∷ port ∷ [])
    → AreBlocks (host ∷ port ∷ a ∷ []) h
    → free_connection a h ≡ done (without (host ∷ port ∷ a ∷ []) h)
unfolding free_connection without
free_connection_lem a host port h e (live, apart, blocks) =
    let words = host ∷ port ∷ [] in
    let (live', apart', blocks') = AreBlocks-release host (port ∷ a ∷ []) h apart blocks in
    let last = AreBlocks-release port (a ∷ []) (release host h) apart' blocks' in
    rw
      (
        free_bare_lem a 0 host words h e refl live,
        free_bare_lem a 1 port words (release host h) (release-other host a h apart.1.0 ∙ e) refl
            live',
        free_lem a (release port (release host h)) last.0,
      )
      refl
