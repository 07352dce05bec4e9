-- ===== src/Esp32/Server.antt =====
-- Maixduino_esp32/main/CommandHandler.cpp and sketch.ino.cpp: the globals, and code over them.
-- `none` is an access outside a buffer or an array.
use kendryte_k210_base_proje.Prelude.{
  ℕ, Bool, true, Option, none, some, List, [], ◌∷◌, ◌==◌, if◌then◌else◌, get_elem?, drop,
}
use kendryte_k210_base_proje.Memory.{store, load, put}

pub data SocketType : Type 0 where
  tcp udp tls empty : SocketType

pub record Server (W : Type 0) : Type 0 where
  pub debug : Bool
  pub socket_types : List SocketType
  -- `setCert` and `setPSK`
  pub set_cert : Bool
  pub set_psk : Bool
  pub cert_buf : List ℕ
  pub pk_buff : List ℕ
  -- the buffer that `response` points to
  pub response : List ℕ
  pub world : W

-- MAX_SOCKETS, which is CONFIG_LWIP_MAX_SOCKETS of the file sdkconfig
abbrev pub max_sockets : ℕ
max_sockets = 10

abbrev pub bad_socket_idx : ℕ
bad_socket_idx = 255

abbrev pub M : Type 0 → Type 0 → Type 0
M W A = Server W → Option (A × Server W)

module _ {W : Type 0} where
  abbrev pub pure : {A : Type 0} → A → M W A
  pure a s = some (a, s)

  -- a value that may not be there
  unfoldable pub fetch : {A : Type 0} → Option A → M W A
  fetch none s = none
  fetch (some a) s = some (a, s)

  -- a call that returns nothing, and one that returns a value
  unfoldable pub call : (W → W) → M W (Unit {0})
  call f s = some (tt, record s { world = f s.world })

  unfoldable pub ask : {A : Type 0} → (W → A × W) → M W A
  ask f s = let (a, w) = f s.world in some (a, record s { world = w })

  unfoldable pub gets : {A : Type 0} → (Server W → A) → M W A
  gets f s = some (f s, s)

  unfoldable pub respond_with : Option (List ℕ) → M W (Unit {0})
  respond_with none s = none
  respond_with (some buf) s = some (tt, record s { response = buf })

  -- bytes written to `response` from offset `i` on
  unfoldable pub respond : ℕ → List ℕ → M W (Unit {0})
  unfolding respond_with store
  respond i bs s = respond_with (store s.response i bs) s

  -- `socketTypes[socket]`
  unfoldable pub socket_type : ℕ → M W SocketType
  unfolding fetch
  socket_type socket s = fetch (get_elem? s.socket_types socket) s

  -- `socketTypes[socket] = t`, after a read of it that did not fault
  unfoldable pub set_socket_type : ℕ → SocketType → M W (Unit {0})
  set_socket_type socket t s =
      some (tt, record s { socket_types = put s.socket_types socket (t ∷ []) })

  unfoldable pub set_debug_flag : Bool → M W (Unit {0})
  set_debug_flag on s = some (tt, record s { debug = on })

  unfoldable pub set_cert_buf : List ℕ → M W (Unit {0})
  set_cert_buf bs s = some (tt, record s { cert_buf = bs; set_cert = true })

  unfoldable pub set_pk_buff : List ℕ → M W (Unit {0})
  set_pk_buff bs s = some (tt, record s { pk_buff = bs; set_psk = true })

-- the text that a pointer to memory leads to, up to its NUL
unfoldable pub cstr : List ℕ → Option (List ℕ)
cstr [] = none
cstr (b ∷ bs) =
    if b == 0 then some [] else elim (cstr bs) [ none ↦ none | some rest ↦ some (b ∷ rest) ]

-- `command[i]`, `n` bytes from there on, and the text there
module _ {W : Type 0} (command : List ℕ) where
  unfoldable pub byte : ℕ → M W ℕ
  unfolding fetch
  byte i = fetch (get_elem? command i)

  unfoldable pub bytes : ℕ → ℕ → M W (List ℕ)
  unfolding fetch load
  bytes i n = fetch (load command i n)

  unfoldable pub text : ℕ → M W (List ℕ)
  unfolding fetch cstr
  text i = fetch (cstr (drop i command))

module _ {W : Type 0} where
  infixl 5 ◌>>=◌ ◌>>◌
  -- opening this opens the primitives too
  unfoldable pub ◌>>=◌ : {A B : Type 0} → M W A → (A → M W B) → M W B
  unfolding fetch call ask gets respond socket_type set_socket_type set_debug_flag set_cert_buf
      set_pk_buff byte bytes text
  ◌>>=◌ m k s = elim (m s) [ none ↦ none | some (a, s') ↦ k a s' ]

  abbrev pub ◌>>◌ : {A B : Type 0} → M W A → M W B → M W B
  m >> k = m >>= λ _. k
