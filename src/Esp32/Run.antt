-- ===== src/Esp32/Run.antt =====
-- Maixduino_esp32/main: the table of sockets over a run of `loop`, as `arduino_main` makes it.
use kendryte_k210_base_proje.Prelude.{
  ℕ, zero, suc, ◌<◌, subst, some, List, [], ◌∷◌, ◌≡◌, ◌≢◌, refl, sym, ap, ◌∙◌, arith, get_elem?,
  length, replicate,
}
use kendryte_k210_base_proje.Memory.{put, length-put}
use kendryte_k210_base_proje.Bytes.{All, All-put}
use kendryte_k210_base_proje.Esp32.Commands.{cesp_close_socket}
use kendryte_k210_base_proje.Esp32.Net.{Net}
use kendryte_k210_base_proje.Esp32.Server.{Server, SocketType, tcp, udp, tls, empty, max_sockets}
use kendryte_k210_base_proje.Esp32.Handle.{begin, clear_response, received, loop, serve}
use kendryte_k210_base_proje.Esp32.Quiet.{
  Leaves, Quiet, Quiet-pure, Quiet-bind, Quiet-gets, Quiet-fetch,
}
use kendryte_k210_base_proje.Esp32.Ends.{
  Ends, Ends-first, Ends-last, Ends-Quiet, Ends-then, Ends-mono,
}
use kendryte_k210_base_proje.Esp32.Table.{Step, same, opened, closed, IsOpen}
use kendryte_k210_base_proje.Esp32.Dispatch.{handle-Ends}

get_elem?-put_other {ℓ} :
    {A : Type ℓ} (xs : List A) (i j : ℕ) (v : A)
    → i ≢ j
    → get_elem? (put xs i (v ∷ [])) j ≡ get_elem? xs j
get_elem?-put_other [] zero zero v h = absurd (h refl)
get_elem?-put_other [] zero (suc j) v h = refl
get_elem?-put_other [] (suc i) j v h = refl
get_elem?-put_other (x ∷ xs) zero zero v h = absurd (h refl)
get_elem?-put_other (x ∷ xs) zero (suc j) v h = refl
get_elem?-put_other (x ∷ xs) (suc i) zero v h = refl
get_elem?-put_other (x ∷ xs) (suc i) (suc j) v h = get_elem?-put_other xs i j v (λ e. h (ap suc e))

-- the command closes socket `i`
abbrev pub Closes : List ℕ → ℕ → Type 0
Closes command i = (get_elem? command 0 ≡ some cesp_close_socket) × (get_elem? command 1 ≡ some i)

not-IsOpen_empty : (t : SocketType) → IsOpen t → some t ≢ some empty
not-IsOpen_empty tcp o e = cc
not-IsOpen_empty tls o e = cc
not-IsOpen_empty udp o e = o
not-IsOpen_empty empty o e = o

-- A step keeps every open socket that it does not close.
Step-open :
    {command : List ℕ} {ts us : List SocketType} (i : ℕ) (t : SocketType)
    → Step command ts us
    → IsOpen t
    → get_elem? ts i ≡ some t
    → ¬ Closes command i
    → get_elem? us i ≡ some t
Step-open i t (same e) o at n = ap (λ us. get_elem? us i) e ∙ at
Step-open {ts} i t (opened j t' o' vacant first e) o at n =
    let other : j ≢ i = λ p. not-IsOpen_empty t o (sym at ∙ ap (get_elem? ts) (sym p) ∙ vacant) in
    ap (λ us. get_elem? us i) e ∙ get_elem?-put_other ts j i t' other ∙ at
Step-open {ts} i t (closed j t' code arg at' o' e) o at n =
    let other : j ≢ i = λ p. n (code, arg ∙ ap some p) in
    ap (λ us. get_elem? us i) e ∙ get_elem?-put_other ts j i empty other ∙ at

-- a property of tables that whatever the command does keeps
abbrev KeptBy : (List SocketType → Type 0) → List ℕ → Type 0
KeptBy R command = (ts us : List SocketType) → Step command ts us → R ts → R us

module _ {W : Type 0} (net : Net W) (R : List SocketType → Type 0) where
  loop-Ends :
      (c : List ℕ) (ts : List SocketType)
      → KeptBy R (received net c)
      → R ts
      → Ends ts R (loop net c)
  unfolding loop
  loop-Ends [] ts keep h = Ends-Quiet ts R _ h (Quiet-pure [])
  loop-Ends (b ∷ bs) ts keep h =
      let served =
        Ends-mono (Step (received net (b ∷ bs)) ts) R ts _ (λ us st. keep ts us st h)
          (handle-Ends net (received net (b ∷ bs)) ts) in
      Ends-first ts R _ _ clear_response-Quiet
        (λ _. Ends-last ts R _ _ served (λ n. Quiet-bind _ _ (Quiet-gets _) (λ buf. Quiet-fetch _)))
    where
      clear_response-Quiet : Quiet (clear_response net)
      clear_response-Quiet = record { same = λ s. unfold clear_response in refl }

  serve-Ends :
      (cs : List (List ℕ)) (ts : List SocketType)
      → All (λ c. KeptBy R (received net c)) cs
      → R ts
      → Ends ts R (serve net cs)
  unfolding serve
  serve-Ends [] ts keep h = Ends-Quiet ts R _ h (Quiet-pure [])
  serve-Ends (c ∷ cs) ts (keep, rest) h =
      Ends-then R R ts _ _ (loop-Ends c ts keep h) (λ reply us r.
        Ends-last us R _ _ (serve-Ends cs us rest r) (λ replies. Quiet-pure (reply ∷ replies)))

All-map {ℓ} :
    {A : Type ℓ} {P Q : A → Type 0} (xs : List A) → ((x : A) → P x → Q x) → All P xs → All Q xs
All-map [] f h = tt
All-map (x ∷ xs) f h = (f x h.0, All-map xs f h.1)

-- In a run of commands that ends without a fault, whatever the commands are, a socket that is open
-- stays open, as what it is, until one of them closes it: no command takes it for another
-- connection. Nothing is said of a run in which a handler accesses memory outside its buffers.
pub serve-open :
    {W : Type 0} (net : Net W) (cs : List (List ℕ)) (s : Server W) (i : ℕ) (t : SocketType)
    → IsOpen t
    → get_elem? s.socket_types i ≡ some t
    → All (λ c. ¬ Closes (received net c) i) cs
    → {replies : List (List ℕ)} {s' : Server W} → serve net cs s ≡ some (replies, s')
    → get_elem? s'.socket_types i ≡ some t
serve-open net cs s i t o at hs runs =
    let R = λ (us : List SocketType). get_elem? us i ≡ some t in
    let keep =
      λ (c : List ℕ) (n : ¬ Closes (received net c) i) (ts us : List SocketType)
          (st : Step (received net c) ts us) (p : R ts).
        Step-open i t st o p n in
    subst (λ r. Leaves r (λ _ us. R us)) runs
      ((serve-Ends net R cs s.socket_types (All-map {Q = λ c. KeptBy R (received net c)} cs keep hs)
          at).ends
        s refl)

abbrev pub NoUdp : List SocketType → Type 0
NoUdp = All (λ t. t ≢ udp)

abbrev pub IsTable : List SocketType → Type 0
IsTable ts = (length ts ≡ max_sockets) × NoUdp ts

open_ne_udp : (t : SocketType) → IsOpen t → t ≢ udp
open_ne_udp tcp o e = cc
open_ne_udp tls o e = cc
open_ne_udp udp o e = o
open_ne_udp empty o e = o

pub get_elem?-lt {ℓ} :
    {A : Type ℓ} (xs : List A) (i : ℕ) {x : A} → get_elem? xs i ≡ some x → i < length xs
get_elem?-lt [] i e = cc
get_elem?-lt (x ∷ xs) zero e = omega arith
get_elem?-lt (x ∷ xs) (suc i) e = omega (arith, get_elem?-lt xs i e)

put-IsTable :
    (ts : List SocketType) (i : ℕ) (t : SocketType)
    → i < length ts
    → t ≢ udp
    → IsTable ts
    → IsTable (put ts i (t ∷ []))
put-IsTable ts i t lt n (len, none_udp) = (
  length-put ts i (t ∷ []) (omega arith) ∙ len,
  All-put (λ x. x ≢ udp) ts i (t ∷ []) none_udp (n, tt),
)

Step-IsTable : {c : List ℕ} {ts us : List SocketType} → Step c ts us → IsTable ts → IsTable us
Step-IsTable (same e) v = rw e v
Step-IsTable {ts} (opened i t o vacant first e) v =
    rw e (put-IsTable ts i t (get_elem?-lt ts i vacant) (open_ne_udp t o) v)
Step-IsTable {ts} (closed i t code arg at o e) v =
    let vacant_ne_udp : empty ≢ udp = λ p. cc in
    rw e (put-IsTable ts i empty (get_elem?-lt ts i at) vacant_ne_udp v)

all_alike : (n : ℕ) (t : SocketType) → t ≢ udp → NoUdp (replicate n t)
all_alike zero t h = tt
all_alike (suc n) t h = (h, all_alike n t h)

every_command :
    (net_received : List ℕ → List ℕ) (cs : List (List ℕ))
    → All (λ c. KeptBy IsTable (net_received c)) cs
every_command f [] = tt
every_command f (c ∷ cs) = ((λ ts us st v. Step-IsTable st v), every_command f cs)

-- After `begin` and a run of commands that ends without a fault, whatever the commands are, the
-- table still has MAX_SOCKETS places, and none of them is a UDP socket. Nothing is said of a run in
-- which a handler accesses memory outside its buffers.
pub serve-IsTable :
    {W : Type 0} (net : Net W) (cs : List (List ℕ)) (s : Server W) {replies : List (List ℕ)}
    {s' : Server W}
    → serve net cs (begin net s) ≡ some (replies, s')
    → IsTable s'.socket_types
unfolding begin
serve-IsTable net cs s runs =
    let ne : empty ≢ udp = λ p. cc in
    let started : IsTable (replicate max_sockets empty) = (refl, all_alike max_sockets empty ne) in
    subst (λ r. Leaves r (λ _ us. IsTable us)) runs
      ((serve-Ends net IsTable cs (replicate max_sockets empty) (every_command (received net) cs)
          started).ends
        (begin net s) refl)
