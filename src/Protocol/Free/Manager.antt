-- ===== src/Protocol/Free/Manager.antt =====
-- What `dynpm_free_register_process_manager_msg` frees.
use libdynpm.Base.{ℕ, ◌≡◌, ◌∙◌, refl, ap, sym, [], ◌∷◌, ◌++◌, List, All, length, append_assoc}
use libdynpm.Text.Outcome.{done}
use libdynpm.Memory.{Heap}
use libdynpm.Memory.Blocks.{
  release, without, Differs, AreBlocks, release-other, AreBlocks-release, without-append, All-right,
}
use libdynpm.Memory.Freeing.{load_lem, free_field_lem, free_struct_lem}
use libdynpm.Protocol.Free.{free_register_process_manager_msg}
use libdynpm.Protocol.Free.Applications.{
  Application, application_blocks, HoldsApplications, IsApplication-release, free_applications_lem,
}
use libdynpm.Protocol.Free.Structs.{manager, IsAt, Frees, is_block}

-- After the host name, the structure still holds its applications.
host_freed :
    (host arr : ℕ) (apps : List Application) (msg : ℕ) (h : Heap)
    → IsAt msg (manager host arr apps) h
    → HoldsApplications (release host h) msg arr (host ∷ length apps ∷ arr ∷ []) [] apps
host_freed host arr apps msg h v =
    let tail = application_blocks apps ++ arr ∷ msg ∷ [] in
    let same : (application_blocks apps ++ arr ∷ []) ++ msg ∷ [] ≡ tail =
      append_assoc (application_blocks apps) (arr ∷ []) (msg ∷ []) in
    let (live, apart, blocks) = v.blocks in
    let apart' : All (Differs host) tail = (rw same at apart) in
    let blocks' : AreBlocks tail h = (rw same at blocks) in
    let ends = All-right (Differs host) (application_blocks apps) (arr ∷ msg ∷ []) apart' in
    record {
      structure = release-other host msg h ends.1.0 ∙ v.structure;
      array = release-other host arr h ends.0 ∙ v.array.0;
      each = IsApplication-release host apps (arr ∷ msg ∷ []) h apart' v.array.1;
      blocks = AreBlocks-release host tail h apart' blocks';
    }

pub free_register_process_manager-Frees :
    (host arr : ℕ) (apps : List Application)
    → Frees free_register_process_manager_msg (manager host arr apps)
unfolding free_register_process_manager_msg without
free_register_process_manager-Frees host arr apps msg h v =
    let ws = host ∷ length apps ∷ arr ∷ [] in
    let holds = host_freed host arr apps msg h v in
    let (looped, structure, blocks) =
      free_applications_lem apps [] ws (release host h) msg arr refl holds in
    let all : (application_blocks apps ++ arr ∷ []) ++ msg ∷ []
        ≡ application_blocks apps ++ arr ∷ msg ∷ [] =
      append_assoc (application_blocks apps) (arr ∷ []) (msg ∷ []) in
    rw
      (
        is_block msg v.not_null,
        free_field_lem msg 0 host ws h v.structure refl v.blocks.0,
        load_lem msg 1 (length apps) ws (release host h) holds.structure refl,
        looped,
      )
      (free_struct_lem msg (2 ∷ []) (arr ∷ []) ws
          (without (application_blocks apps) (release host h)) structure (refl, tt) blocks
        ∙ ap done (
            sym (without-append (application_blocks apps) (arr ∷ msg ∷ []) (release host h))
            ∙ ap (λ ps. without ps (release host h)) (sym all)))
