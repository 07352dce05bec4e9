-- ===== src/Esp32/Table.antt =====
-- Maixduino_esp32/main/CommandHandler.cpp: what a command does to the table of sockets.
use kendryte_k210_base_proje.Prelude.{
  suc, ◌+◌, take, ℕ, false, some, List, [], ◌∷◌, ◌≡◌, ◌≢◌, refl, arith, leb, ◌==◌, get_elem?,
}
use kendryte_k210_base_proje.Memory.{put}
use kendryte_k210_base_proje.Bytes.{All}
use kendryte_k210_base_proje.Esp32.Commands.{cesp_close_socket}
use kendryte_k210_base_proje.Esp32.Net.{Net, Host}
use kendryte_k210_base_proje.Esp32.Server.{
  SocketType, tcp, udp, tls, empty, M, byte, max_sockets, bad_socket_idx,
}
use kendryte_k210_base_proje.Esp32.Sockets.{
  first_empty, on_socket, connect_client, start_socket_client, stop_client, close_socket, flag,
}
use kendryte_k210_base_proje.Esp32.Transfer.{accept_client, tcp_server_accept}
use kendryte_k210_base_proje.Esp32.Quiet.{
  Quiet, Quiet-pure, Quiet-answer, Quiet-set_keys, Quiet-target,
}
use kendryte_k210_base_proje.Esp32.Ends.{
  Ends, Ends-last, Ends-Quiet, Ends-free_socket, Ends-if, Ends-fetch, Ends-socket_type, ends_rules,
}

abbrev pub IsOpen : SocketType → Type 0
IsOpen tcp = Unit
IsOpen tls = Unit
IsOpen udp = ⊥
IsOpen empty = ⊥

-- What one command may make of the table: nothing; the first free socket is opened, by a command
-- that opens one; or the open socket that a close names is freed.
pub data Step (command : List ℕ) (ts us : List SocketType) : Type 0 where
  same : us ≡ ts → Step command ts us
  opened :
      (i : ℕ) (t : SocketType)
      → IsOpen t
      → get_elem? ts i ≡ some empty
      → All (λ x. x ≢ empty) (take i ts)
      → us ≡ put ts i (t ∷ [])
      → Step command ts us
  closed :
      (i : ℕ) (t : SocketType)
      → get_elem? command 0 ≡ some cesp_close_socket
      → get_elem? command 1 ≡ some i
      → get_elem? ts i ≡ some t
      → IsOpen t
      → us ≡ put ts i (empty ∷ [])
      → Step command ts us

-- The place that `freeSocket` finds is free, and those before it are not.
pub first_empty_lem :
    (ts : List SocketType) (k : ℕ)
    → first_empty k ts ≢ bad_socket_idx
    → (j : ℕ) × (first_empty k ts ≡ k + j)
      × (get_elem? ts j ≡ some empty)
      × All (λ x. x ≢ empty) (take j ts)
unfolding first_empty
first_empty_lem [] k h = absurd (h refl)
first_empty_lem (empty ∷ ts) k h = (0, omega arith, refl, tt)
first_empty_lem (tcp ∷ ts) k h =
    let (j, e, at, before) = first_empty_lem ts (suc k) h in
    let ne : tcp ≢ empty = λ p. cc in (suc j, omega arith, at, (ne, before))
first_empty_lem (udp ∷ ts) k h =
    let (j, e, at, before) = first_empty_lem ts (suc k) h in
    let ne : udp ≢ empty = λ p. cc in (suc j, omega arith, at, (ne, before))
first_empty_lem (tls ∷ ts) k h =
    let (j, e, at, before) = first_empty_lem ts (suc k) h in
    let ne : tls ≢ empty = λ p. cc in (suc j, omega arith, at, (ne, before))

open_first :
    (command : List ℕ) (ts : List SocketType) (t : SocketType)
    → IsOpen t
    → first_empty 0 ts ≢ bad_socket_idx
    → Step command ts (put ts (first_empty 0 ts) (t ∷ []))
open_first command ts t o free =
    let (j, found, vacant, before) = first_empty_lem ts 0 free in
    let place : first_empty 0 ts ≡ j = omega (arith, found) in
    rw place (opened j t o vacant before refl)

module _ {W : Type 0} (net : Net W) (command : List ℕ) (ts : List SocketType) where
  connect_client-Step :
      (mode : ℕ) (host : M W Host) (port : ℕ)
      → Quiet host
      → first_empty 0 ts ≢ bad_socket_idx
      → Ends ts (Step command ts) (connect_client net mode (first_empty 0 ts) host port)
  unfolding connect_client
  connect_client-Step mode host port q free =
      let unchanged : Step command ts ts = same refl in
      let open_tcp : Step command ts (put ts (first_empty 0 ts) (tcp ∷ [])) =
        open_first command ts tcp tt free in
      let open_tls : Step command ts (put ts (first_empty 0 ts) (tls ∷ [])) =
        open_first command ts tls tt free in
      search (ends_rules, Quiet-set_keys) depth 20 fits 2000

  ne_of_test : (i : ℕ) → (i == bad_socket_idx) ≡ false → i ≢ bad_socket_idx
  ne_of_test i h = ground arith

  pub start_socket_client-Step : Ends ts (Step command ts) (start_socket_client net command)
  unfolding start_socket_client
  start_socket_client-Step =
      let unchanged : Step command ts ts = same refl in
      Ends-free_socket ts (Step command ts) _ (
        Ends-if ts (Step command ts) (first_empty 0 ts == bad_socket_idx) _ _
          (λ _. search (ends_rules, Quiet-answer))
          (λ taken.
            let free = ne_of_test (first_empty 0 ts) taken in
            search (ends_rules, Quiet-answer, Quiet-target, connect_client-Step) depth 20 fits
              2000))

  accept_client-Step : Ends ts (Step command ts) (accept_client net)
  unfolding accept_client
  accept_client-Step =
      let unchanged : Step command ts ts = same refl in
      Ends-free_socket ts (Step command ts) _ (
        Ends-if ts (Step command ts) (first_empty 0 ts == bad_socket_idx) _ _
          (λ _. search ends_rules)
          (λ taken.
            let free = ne_of_test (first_empty 0 ts) taken in
            let open_tcp : Step command ts (put ts (first_empty 0 ts) (tcp ∷ [])) =
              open_first command ts tcp tt free in
            search ends_rules depth 20 fits 2000))

  pub tcp_server_accept-Step : Ends ts (Step command ts) (tcp_server_accept net)
  unfolding tcp_server_accept
  tcp_server_accept-Step =
      let unchanged : Step command ts ts = same refl in
      search (ends_rules, accept_client-Step) depth 20 fits 2000

  stop_client-Step :
      (i : ℕ) (t : SocketType)
      → get_elem? command 0 ≡ some cesp_close_socket
      → get_elem? command 1 ≡ some i
      → get_elem? ts i ≡ some t
      → Ends ts (Step command ts) (stop_client net i t)
  unfolding stop_client
  stop_client-Step i tcp code arg at =
      let freed : Step command ts (put ts i (empty ∷ [])) = closed i tcp code arg at tt refl in
      search ends_rules depth 20 fits 2000
  stop_client-Step i tls code arg at =
      let freed : Step command ts (put ts i (empty ∷ [])) = closed i tls code arg at tt refl in
      search ends_rules depth 20 fits 2000
  stop_client-Step i udp code arg at =
      Ends-Quiet ts (Step command ts) _ (same refl) (Quiet-pure false)
  stop_client-Step i empty code arg at =
      Ends-Quiet ts (Step command ts) _ (same refl) (Quiet-pure false)

  pub close_socket-Step :
      get_elem? command 0 ≡ some cesp_close_socket
      → Ends ts (Step command ts) (close_socket net command)
  unfolding close_socket byte on_socket
  close_socket-Step code = Ends-fetch ts (Step command ts) (get_elem? command 1) _ (λ i arg.
      Ends-last ts (Step command ts) _ _
        (Ends-if ts (Step command ts) (leb max_sockets i) _ _
          (λ _. Ends-Quiet ts (Step command ts) _ (same refl) (Quiet-pure false))
          (λ _.
            Ends-socket_type ts (Step command ts) i _ (λ t at. stop_client-Step i t code arg at)))
        (λ ok. Quiet-answer (flag ok)))
