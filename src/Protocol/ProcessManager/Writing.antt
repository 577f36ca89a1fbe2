-- ===== src/Protocol/ProcessManager/Writing.antt =====
-- What the writer of a process manager's registration leaves in the buffer.
use libdynpm.Base.{
  ℕ, zero, suc, ◌+◌, ◌*◌, ◌≤◌, ◌<◌, ◌≡◌, ◌≢◌, ◌∙◌, refl, ap, sym, [], ◌∷◌, ◌++◌, List, All,
  All-append, some, append_assoc, append-nil, arith, replicate, length, length-append, length-drop,
  length-replicate, drop, get_elem?,
}
use libdynpm.Text.Chars.{Bytes, codes, IsToken}
use libdynpm.Text.Outcome.{done, or_fault, ◌>>=◌}
use libdynpm.Text.Format.{Value, num, str, directives, print}
use libdynpm.Text.Scan.{word, chars}
use libdynpm.Text.RoundTrip.{Agree, finished, number_space, token, length-print}
use libdynpm.Text.Splice.{write-append, drop-drop}
use libdynpm.Text.Buffer.{Buffer, c_string, sprintf, overlay, c_string-append}
use libdynpm.Protocol.Frame.{IsWord, text, sprintf_lem}
use libdynpm.Protocol.ProcessManager.{Application, strcat, append_application, append_from}
use libdynpm.Protocol.ProcessManager.Lines.{IsInline, inline-ne-nul, line-IsInline}

-- Every number is a 32-bit word, and the nodes are one token that leaves room in the block of a line.
pub record IsApplication (a : Application) : Type 0 where
  pub application_index : IsWord a.application_index
  pub malleability_mode : IsWord a.malleability_mode
  pub node_count : IsWord a.node_count
  pub nodes : IsToken a.nodes
  pub nodes_fits : length a.nodes < 218

abbrev pub values : Application → List Value
values a = num a.application_index ∷ num a.malleability_mode ∷ num a.node_count ∷ str a.nodes ∷ []

-- The line of an application, without its end
abbrev pub body : Application → Bytes
body a = text "%d %d %d %s " (values a)

abbrev pub lines : List Application → Bytes
lines [] = []
lines (a ∷ applications) = body a ++ 10 ∷ lines applications

pub body-Agree :
    (a : Application)
    → IsApplication a
    → Agree
        (directives (codes "%d %d %d %s "))
        (directives (codes "%d %d %d %s"))
        (word ∷ word ∷ word ∷ chars 512 ∷ [])
        (values a)
unfolding directives
body-Agree a v = number_space v.application_index (
    number_space v.malleability_mode
      (number_space v.node_count (token v.nodes (omega (arith, v.nodes_fits)) refl finished)))

pub body-IsInline : (a : Application) → IsApplication a → All IsInline (body a)
unfolding directives
body-IsInline a v = line-IsInline (body-Agree a v) (ground arith)

pub length-body : (a : Application) → IsApplication a → length (body a) < 255
unfolding directives
length-body a v =
    omega (arith, length-print (directives (codes "%d %d %d %s ")) (values a), v.nodes_fits)

text-body : (a : Application) → text "%d %d %d %s \n" (values a) ≡ body a ++ 10 ∷ []
unfolding directives print
text-body a = simp append_assoc

-- `strcat` behind a text that holds no NUL
strcat-overlay :
    (t l : Bytes) (b : Buffer)
    → All (λ c. c ≢ 0) t
    → length t + length l < length b
    → strcat (overlay t b) l ≡ done (overlay (t ++ l) b)
unfolding strcat
strcat-overlay t l b clean fits =
    let rear = drop (length (t ++ l) + 1) b in
    let left : drop (length (l ++ 0 ∷ [])) (0 ∷ drop (length t + 1) b) ≡ rear =
      ap (λ (k : ℕ). drop k (0 ∷ drop (length t + 1) b)) {y = suc (length l)}
        (omega (arith, length-append l (0 ∷ [])))
      ∙ drop-drop (length l) (length t + 1) b
      ∙ ap (λ (k : ℕ). drop k b) (omega (arith, length-append t l)) in
    rw
      (
        c_string-append t (drop (length t + 1) b) clean,
        write-append t (l ++ 0 ∷ []) (0 ∷ drop (length t + 1) b)
            (omega (arith, length-append l (0 ∷ []), length-drop (length t + 1) b)),
        left,
      )
      (ap done (joined rear))
  where
    joined : (r : Bytes) → (t ++ (l ++ 0 ∷ [])) ++ r ≡ (t ++ l) ++ 0 ∷ r
    joined r = simp append_assoc

-- One round, by way of a block of 256 bytes
through_block :
    (block : Buffer) (a : Application) (t : Bytes) (b : Buffer)
    → length block ≡ 256
    → IsApplication a
    → All (λ c. c ≢ 0) t
    → length t + length (body a ++ 10 ∷ []) < length b
    → (do
      temp ← sprintf "%d %d %d %s \n" (values a) block
      line ← or_fault (c_string temp)
      strcat (overlay t b) line)
      ≡ done (overlay (t ++ (body a ++ 10 ∷ [])) b)
through_block block a t b size v clean fits =
    let line = body a ++ 10 ∷ [] in
    let line_clean : All (λ c. c ≢ 0) line =
      All-append _ (body a) (10 ∷ []) (inline-ne-nul (body a) (body-IsInline a v))
        ((λ e. omega arith), tt) in
    let printed : sprintf "%d %d %d %s \n" (values a) block ≡ done (overlay line block) =
      sprintf_lem "%d %d %d %s \n" (values a) block
        (omega (arith, ap length (text-body a), length-append (body a) (10 ∷ []), length-body a v))
      ∙ ap (λ l. done (overlay l block)) (text-body a) in
    rw (printed, c_string-append line (drop (length line + 1) block) line_clean)
      (strcat-overlay t line b clean fits)

append_application_lem :
    (a : Application) (t : Bytes) (b : Buffer)
    → IsApplication a
    → All (λ c. c ≢ 0) t
    → length t + length (body a ++ 10 ∷ []) < length b
    → append_application a (overlay t b) ≡ done (overlay (t ++ (body a ++ 10 ∷ [])) b)
unfolding append_application
append_application_lem a t b v clean fits =
    through_block (replicate 256 0) a t b (length-replicate {A = ℕ} 256 0) v clean fits

get-drop :
    (all rest : List Application) (app : ℕ) (a : Application)
    → drop app all ≡ a ∷ rest
    → (get_elem? all app ≡ some a) × (drop (app + 1) all ≡ rest)
get-drop [] rest zero a e = absurd cc
get-drop [] rest (suc app) a e = absurd cc
get-drop (x ∷ all) rest zero a e = (cc, cc)
get-drop (x ∷ all) rest (suc app) a e =
    let (found, next) = get-drop all rest app a e in
    (found, ap (λ (k : ℕ). drop k (x ∷ all)) {y = suc (app + 1)} (omega arith) ∙ next)

pub lines-ne-nul :
    (applications : List Application)
    → All IsApplication applications
    → All (λ c. c ≢ 0) (lines applications)
lines-ne-nul [] vs = tt
lines-ne-nul (a ∷ applications) vs =
    All-append _ (body a) _ (inline-ne-nul (body a) (body-IsInline a vs.0))
      ((λ e. omega arith), lines-ne-nul applications vs.1)

pub length-lines :
    (applications : List Application)
    → All IsApplication applications
    → length (lines applications) ≤ 255 * length applications
length-lines [] vs = omega arith
length-lines (a ∷ applications) vs = omega (
  arith,
  length-append (body a) (10 ∷ lines applications),
  length-body a vs.0,
  length-lines applications vs.1,
)

-- The loop puts the lines of the applications left behind the text.
pub append_from_lem :
    (all applications : List Application) (app : ℕ) (t : Bytes) (b : Buffer)
    → drop app all ≡ applications
    → All IsApplication applications
    → All (λ c. c ≢ 0) t
    → length t + length (lines applications) < length b
    → append_from all (length applications) app (overlay t b)
      ≡ done (overlay (t ++ lines applications) b)
unfolding append_from
append_from_lem all [] app t b left vs clean fits =
    ap (λ u. done (overlay u b)) (sym (append-nil t))
append_from_lem all (a ∷ applications) app t b left vs clean fits =
    let line = body a ++ 10 ∷ [] in
    let (found, next) = get-drop all applications app a left in
    let sizes = length-append (body a) (10 ∷ lines applications) in
    let line_size = length-append (body a) (10 ∷ []) in
    let clean' : All (λ c. c ≢ 0) (t ++ line) =
      All-append _ t line clean (lines-ne-nul (a ∷ []) (vs.0, tt)) in
    rw (found, append_application_lem a t b vs.0 clean (omega (arith, sizes, line_size)))
      (append_from_lem all applications (app + 1) (t ++ line) b next vs.1 clean'
          (omega (arith, sizes, line_size, length-append t line))
        ∙ ap (λ u. done (overlay u b)) joined)
  where
    joined : (t ++ (body a ++ 10 ∷ [])) ++ lines applications ≡ t ++ lines (a ∷ applications)
    joined =
        append_assoc t (body a ++ 10 ∷ []) (lines applications)
        ∙ ap (λ r. t ++ r) (append_assoc (body a) (10 ∷ []) (lines applications))
