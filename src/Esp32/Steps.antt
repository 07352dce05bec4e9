-- ===== src/Esp32/Steps.antt =====
-- Maixduino_esp32/main/CommandHandler.cpp: the steps of handlers, one by one.
use kendryte_k210_base_proje.Prelude.{
  ℕ, ◌+◌, ◌≤◌, ◌<◌, Option, none, some, List, ◌≡◌, ap, ◌∙◌, lt→leb_false, length, get_elem?,
  some_inj,
}
use kendryte_k210_base_proje.Memory.{load, put, store_lem}
use kendryte_k210_base_proje.Esp32.Net.{Net, Client}
use kendryte_k210_base_proje.Esp32.Server.{
  Server, SocketType, tcp, udp, tls, empty, M, ◌>>=◌, fetch, respond, respond_with, socket_type,
  byte, bytes, max_sockets,
}
use kendryte_k210_base_proje.Esp32.Sockets.{client_of, on_socket, with_client}

module _ {W : Type 0} where
  -- A step that is known is left out of a sequence of steps.
  pub after :
      {A B : Type 0} (m : M W A) (k : A → M W B) {s s' : Server W} {a : A}
      → m s ≡ some (a, s')
      → (m >>= k) s ≡ k a s'
  unfolding ◌>>=◌
  after m k e = ap (λ o. elim o [ none ↦ none | some (a, s') ↦ k a s' ]) e

  pub fetch_lem :
      {A : Type 0} {o : Option A} (s : Server W) {a : A} → o ≡ some a → fetch o s ≡ some (a, s)
  unfolding fetch
  fetch_lem s e = ap (λ o. fetch o s) e

  pub byte_lem :
      (command : List ℕ) (i : ℕ) (s : Server W) {b : ℕ}
      → get_elem? command i ≡ some b
      → byte command i s ≡ some (b, s)
  unfolding byte
  byte_lem command i s e = fetch_lem s e

  pub bytes_lem :
      (command : List ℕ) (i n : ℕ) (s : Server W) {bs : List ℕ}
      → load command i n ≡ some bs
      → bytes command i n s ≡ some (bs, s)
  unfolding bytes
  bytes_lem command i n s e = fetch_lem s e

  pub respond_lem :
      (i : ℕ) (bs : List ℕ) (s : Server W)
      → i + length bs ≤ length s.response
      → respond i bs s ≡ some (tt, record s { response = put s.response i bs })
  unfolding respond respond_with
  respond_lem i bs s h = ap (λ o. respond_with o s) (store_lem s.response i bs h)

  with_client_lem :
      {A : Type 0} (net : Net W) (out : A) (k : Client W → M W A) (t : SocketType) {c : Client W}
      → client_of net t ≡ some c
      → with_client net out k t ≡ k c
  unfolding with_client
  with_client_lem net out k tcp e = ap k (some_inj e)
  with_client_lem net out k tls e = ap k (some_inj e)
  with_client_lem net out k udp e = cc
  with_client_lem net out k empty e = cc

  -- on an open socket, the code for its client runs
  pub on_open :
      {A : Type 0} (net : Net W) (out : A) (k : Client W → M W A) (i : ℕ) (t : SocketType)
      {c : Client W} (s : Server W)
      → i < max_sockets
      → get_elem? s.socket_types i ≡ some t
      → client_of net t ≡ some c
      → on_socket i out (with_client net out k) s ≡ k c s
  unfolding on_socket socket_type
  on_open net out k i t {c} s lt at e =
      rw (lt→leb_false max_sockets i lt)
        (after (socket_type i) _ (fetch_lem s at) ∙ ap (λ m. m s) (with_client_lem net out k t e))
