-- ===== src/Esp32/Quiet.antt =====
-- Maixduino_esp32/main/CommandHandler.cpp: what a piece of a handler does to the table of sockets.
pub mod Handlers
use kendryte_k210_base_proje.Prelude.{
  ℕ, Bool, true, false, Option, none, some, List, [], ◌∷◌, ◌≡◌, refl, ◌∙◌, if◌then◌else◌,
  Option-cases, inl, inr, leb, Bool-cases, ap,
}
use kendryte_k210_base_proje.Memory.{load, store}
use kendryte_k210_base_proje.Esp32.Net.{Net, Client}
use kendryte_k210_base_proje.Esp32.Server.{
  Server, SocketType, tcp, udp, tls, empty, M, pure, ◌>>=◌, ◌>>◌, fetch, call, ask, gets, respond,
  respond_with, socket_type, byte, bytes, text, set_debug_flag, set_cert_buf, set_pk_buff,
  max_sockets, cstr,
}
use kendryte_k210_base_proje.Esp32.Sockets.{
  free_socket, answer, on_socket, with_client, set_keys, target,
}

-- A result, and the table of sockets then, unless the code faults.
abbrev pub Leaves : {W A : Type 0} → Option (A × Server W) → (A → List SocketType → Type 0) → Type 0
Leaves none Q = Unit {0}
Leaves (some (a, s)) Q = Q a s.socket_types

module _ {W : Type 0} where
  -- the code leaves the table as it is
  pub record Quiet {A : Type 0} (m : M W A) : Type 0 where
    pub same : (s : Server W) → Leaves (m s) (λ _ ts. ts ≡ s.socket_types)

  pub Leaves-mono :
      {A : Type 0} {P Q : A → List SocketType → Type 0} (r : Option (A × Server W))
      → ((a : A) (ts : List SocketType) → P a ts → Q a ts)
      → Leaves r P
      → Leaves r Q
  Leaves-mono none h p = tt
  Leaves-mono (some (a, s)) h p = h a s.socket_types p

  Leaves-bind :
      {A B : Type 0} (r : Option (A × Server W)) (k : A → M W B) (ts : List SocketType)
      → Leaves r (λ _ us. us ≡ ts)
      → ((a : A) (s : Server W) → Leaves (k a s) (λ _ us. us ≡ s.socket_types))
      → Leaves (elim r [ none ↦ none | some (a, s) ↦ k a s ]) (λ _ us. us ≡ ts)
  Leaves-bind none k ts h hk = tt
  Leaves-bind (some (a, s)) k ts h hk = Leaves-mono (k a s) (λ _ us e. e ∙ h) (hk a s)

  pub Quiet-bind :
      {A B : Type 0} (m : M W A) (k : A → M W B)
      → Quiet m
      → ((a : A) → Quiet (k a))
      → Quiet (m >>= k)
  unfolding ◌>>=◌
  Quiet-bind m k h hk = record {
    same = λ s. Leaves-bind (m s) k s.socket_types (h.same s) (λ a. (hk a).same);
  }

  pub Quiet-pure : {A : Type 0} (a : A) → Quiet (pure a)
  Quiet-pure a = record { same = λ s. refl }

  pub Quiet-call : (f : W → W) → Quiet (call f)
  unfolding call
  Quiet-call f = record { same = λ s. refl }

  pub Quiet-ask : {A : Type 0} (f : W → A × W) → Quiet (ask f)
  unfolding ask
  Quiet-ask f = record { same = λ s. refl }

  pub Quiet-gets : {A : Type 0} (f : Server W → A) → Quiet (gets f)
  unfolding gets
  Quiet-gets f = record { same = λ s. refl }

  pub Quiet-fetch : {A : Type 0} (o : Option A) → Quiet (fetch o)
  unfolding fetch
  Quiet-fetch none = record { same = λ s. tt }
  Quiet-fetch (some a) = record { same = λ s. refl }

  respond_with-same :
      (o : Option (List ℕ)) (s : Server W) → Leaves (respond_with o s) (λ _ ts. ts ≡ s.socket_types)
  unfolding respond_with
  respond_with-same none s = tt
  respond_with-same (some buf) s = refl

  pub Quiet-respond : (i : ℕ) (bs : List ℕ) → Quiet (respond i bs)
  unfolding respond
  Quiet-respond i bs = record { same = λ s. respond_with-same (store s.response i bs) s }

  pub Quiet-socket_type : (socket : ℕ) → Quiet (socket_type socket)
  unfolding socket_type
  Quiet-socket_type socket = record { same = λ s. (Quiet-fetch _).same s }

  pub Quiet-byte : (command : List ℕ) (i : ℕ) → Quiet (byte command i)
  unfolding byte
  Quiet-byte command i = Quiet-fetch _

  pub Quiet-bytes : (command : List ℕ) (i n : ℕ) → Quiet (bytes command i n)
  unfolding bytes
  Quiet-bytes command i n = Quiet-fetch (load command i n)

  pub Quiet-text : (command : List ℕ) (i : ℕ) → Quiet (text command i)
  unfolding text
  Quiet-text command i = Quiet-fetch _

  pub Quiet-set_debug_flag : (on : Bool) → Quiet (set_debug_flag on)
  unfolding set_debug_flag
  Quiet-set_debug_flag on = record { same = λ s. refl }

  pub Quiet-set_cert_buf : (bs : List ℕ) → Quiet (set_cert_buf bs)
  unfolding set_cert_buf
  Quiet-set_cert_buf bs = record { same = λ s. refl }

  pub Quiet-set_pk_buff : (bs : List ℕ) → Quiet (set_pk_buff bs)
  unfolding set_pk_buff
  Quiet-set_pk_buff bs = record { same = λ s. refl }

  pub Quiet-if :
      {A : Type 0} (b : Bool) (m k : M W A) → Quiet m → Quiet k → Quiet (if b then m else k)
  Quiet-if true m k h hk = h
  Quiet-if false m k h hk = hk

  pub ruleset quiet = (
    Quiet-bind, Quiet-pure, Quiet-call, Quiet-ask, Quiet-gets, Quiet-fetch, Quiet-respond,
    Quiet-socket_type, Quiet-byte, Quiet-bytes, Quiet-text, Quiet-set_debug_flag,
    Quiet-set_cert_buf, Quiet-set_pk_buff, Quiet-if,
  )

  pub Quiet-answer : (x : ℕ) → Quiet (answer x)
  unfolding answer
  Quiet-answer x = search quiet

  pub Quiet-with_client :
      {A : Type 0} (net : Net W) (out : A) (k : Client W → M W A) (t : SocketType)
      → ((c : Client W) → Quiet (k c))
      → Quiet (with_client net out k t)
  unfolding with_client
  Quiet-with_client net out k tcp h = h net.tcp
  Quiet-with_client net out k tls h = h net.tls
  Quiet-with_client net out k udp h = Quiet-pure out
  Quiet-with_client net out k empty h = Quiet-pure out

  pub Quiet-on_socket :
      {A : Type 0} (socket : ℕ) (out : A) (k : SocketType → M W A)
      → ((t : SocketType) → Quiet (k t))
      → Quiet (on_socket socket out k)
  unfolding on_socket
  Quiet-on_socket socket out k h = search (quiet, h)

  pub Quiet-set_keys : (net : Net W) (socket : ℕ) → Quiet (set_keys net socket)
  unfolding set_keys
  Quiet-set_keys net socket = search quiet depth 12

  pub Quiet-free_socket : Quiet (free_socket {W = W})
  unfolding free_socket
  Quiet-free_socket = search quiet

  pub Quiet-target : (command : List ℕ) → Quiet (target {W = W} command)
  unfolding target
  Quiet-target command = search quiet depth 12
