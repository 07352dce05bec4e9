-- ===== src/Esp32/Dispatch.antt =====
-- Maixduino_esp32/main/CommandHandler.cpp: `handle` and `begin` on the table of sockets, over any
-- run of commands.
use kendryte_k210_base_proje.Prelude.{
  ℕ, zero, suc, ◌≤◌, ◌<◌, Bool, true, false, ◌&&◌, ◌||◌, not, Option, none, some, List, [], ◌∷◌,
  ◌≡◌, refl, ap, ◌∙◌, arith, ◌==◌, get_elem?, length, dec_lt,
}
use kendryte_k210_base_proje.Esp32.Commands.{cesp_close_socket}
use kendryte_k210_base_proje.Esp32.Net.{Net}
use kendryte_k210_base_proje.Esp32.Server.{Server, SocketType, byte}
use kendryte_k210_base_proje.Esp32.Handle.{
  Handler, command_handlers, handler_of, run, run_entry, handle, round_up4,
}
use kendryte_k210_base_proje.Esp32.Quiet.{Leaves, Quiet-pure}
use kendryte_k210_base_proje.Esp32.Quiet.Handlers.{run-Quiet}
use kendryte_k210_base_proje.Esp32.Ends.{Ends, Ends-last, Ends-Quiet, Ends-fetch}
use kendryte_k210_base_proje.Esp32.Table.{
  Step, same, start_socket_client-Step, tcp_server_accept-Step, close_socket-Step,
}

closes : Option Handler → Bool
closes (some Handler.close_socket) = true
closes _ = false

-- Every code below `n` with the handler `closeSocket` is that of the close command.
only_close : ℕ → Bool
only_close zero = true
only_close (suc n) = (not (closes (handler_of n)) || (n == cesp_close_socket)) && only_close n

only_close_lem :
    (n code : ℕ)
    → only_close n ≡ true
    → code < n
    → handler_of code ≡ some Handler.close_socket
    → code ≡ cesp_close_socket
unfolding only_close closes
only_close_lem zero code h lt e = absurd (omega arith)
only_close_lem (suc n) code h lt e = ground (arith, only_close_lem n code)

only_close_table : only_close 80 ≡ true
unfolding only_close closes handler_of
only_close_table = refl

get_elem?-ge {ℓ} : {A : Type ℓ} (xs : List A) (i : ℕ) → length xs ≤ i → get_elem? xs i ≡ none
get_elem?-ge [] i h = refl
get_elem?-ge (x ∷ xs) zero h = absurd (omega arith)
get_elem?-ge (x ∷ xs) (suc i) h = get_elem?-ge xs i (omega arith)

-- The close command alone has the handler `closeSocket`.
handler_of-close :
    (code : ℕ) → handler_of code ≡ some Handler.close_socket → code ≡ cesp_close_socket
unfolding handler_of
handler_of-close code e = elim (dec_lt code 80) [
  | yes lt ↦ only_close_lem 80 code only_close_table lt e
  | no ge ↦ let out = get_elem?-ge command_handlers code (omega arith) in ground (arith, out)
]

module _ {W : Type 0} (net : Net W) (command : List ℕ) (ts : List SocketType) where
  run-Step :
      (h : Handler)
      → (h ≡ Handler.close_socket → get_elem? command 0 ≡ some cesp_close_socket)
      → Ends ts (Step command ts) (run net command h)
  unfolding run
  run-Step Handler.start_socket_client code = start_socket_client-Step net command ts
  run-Step Handler.tcp_server_accept code = tcp_server_accept-Step net command ts
  run-Step Handler.close_socket code = close_socket-Step net command ts (code refl)
  run-Step h code = Ends-Quiet ts (Step command ts) _ (same refl) (run-Quiet net command h refl)

  run_entry-Step :
      (code : ℕ) (h : Option Handler)
      → get_elem? command 0 ≡ some code
      → handler_of code ≡ h
      → Ends ts (Step command ts) (run_entry net command h)
  unfolding run_entry
  run_entry-Step code none at e = Ends-Quiet ts (Step command ts) _ (same refl) (Quiet-pure 0)
  run_entry-Step code (some h) at e =
      run-Step h (λ p. at ∙ ap some (handler_of-close code (e ∙ ap some p)))

  pub handle-Ends : Ends ts (Step command ts) (handle net command)
  unfolding handle byte
  handle-Ends = Ends-fetch ts (Step command ts) (get_elem? command 0) _ (λ code at.
      Ends-last ts (Step command ts) _ _ (run_entry-Step code (handler_of code) at refl)
        (λ n. Quiet-pure (round_up4 n)))

-- A command makes one step on the table of sockets, whatever it is and whatever the libraries
-- answer: the table stays as it is; or the first free place gets a TCP or TLS socket; or, for a
-- close command, the open socket that its second byte names becomes free. Nothing is said of a
-- command on which the code leaves a buffer or an array.
pub handle-Step :
    {W : Type 0} (net : Net W) (command : List ℕ) (s : Server W)
    → Leaves (handle net command s) (λ _ us. Step command s.socket_types us)
handle-Step net command s = (handle-Ends net command s.socket_types).ends s refl
