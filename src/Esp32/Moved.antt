-- ===== src/Esp32/Moved.antt =====
-- Maixduino_esp32/main: `loop` on the two commands that move data over an open socket.
use kendryte_k210_base_proje.Prelude.{
  ℕ, ◌+◌, ◌-◌, ◌^◌, ◌≤◌, ◌<◌, Bool, true, false, Option, none, some, List, [], ◌∷◌, ◌++◌, ◌≡◌, refl,
  sym, ap, ◌∙◌, arith, le→ltb_false, u16, length, drop, get_elem?, if◌then◌else◌, drop-drop,
}
use kendryte_k210_base_proje.Memory.{load, put, length-put}
use kendryte_k210_base_proje.Bytes.{word_of, bytes_of, word_of-bytes_of}
use kendryte_k210_base_proje.Esp32.Net.{Net, Client}
use kendryte_k210_base_proje.Esp32.Server.{
  Server, SocketType, pure, ◌>>=◌, ask, gets, respond, socket_type, byte, bytes, max_sockets,
}
use kendryte_k210_base_proje.Esp32.Sockets.{flag, client_of, on_socket, with_client}
use kendryte_k210_base_proje.Esp32.Link.Receive.{put_nil}
use kendryte_k210_base_proje.Esp32.Transfer.{
  write_client, respond_moved, send_socket_data, read_client, store_read, read_length, debug_read,
  read_socket_data,
}
use kendryte_k210_base_proje.Esp32.Steps.{
  after, fetch_lem, byte_lem, bytes_lem, respond_lem, on_open,
}

module _ {W : Type 0} where
  -- The head of the answer.
  respond_moved_lem :
      (n : ℕ) (valid : Bool) (s : Server W)
      → 4 ≤ length s.response
      → respond_moved n valid s
        ≡ some (tt, record s { response = put s.response 0 (bytes_of 2 n ++ flag valid ∷ 0 ∷ []) })
  unfolding respond_moved
  respond_moved_lem n valid s h =
      let r1 = put s.response 0 (bytes_of 2 n) in
      let len1 = length-put s.response 0 (bytes_of 2 n) (omega arith) in
      let r2 = put r1 2 (flag valid ∷ []) in
      let len2 = length-put r1 2 (flag valid ∷ []) (omega (arith, len1)) in
      after (respond 0 (bytes_of 2 n)) _ (respond_lem 0 (bytes_of 2 n) s (omega arith))
      ∙ after (respond 2 (flag valid ∷ [])) _
          (respond_lem 2 (flag valid ∷ []) (record s { response = r1 }) (omega (arith, len1)))
      ∙ respond_lem 3 (0 ∷ []) (record s { response = r2 }) (omega (arith, len1, len2))
      ∙ ap (λ r. some (tt, record s { response = r }))
          (ap (λ (d : List ℕ). bytes_of 2 n ++ flag valid ∷ 0 ∷ d)
            (ap (drop 1) (drop-drop 1 2 s.response) ∙ drop-drop 1 3 s.response))

-- the library's answers to a write: the count, whether the client is alive, and the world then
abbrev pub wrote : {W : Type 0} → Client W → ℕ → List ℕ → W → ℕ × Bool × W
wrote c i bs w = let (n, w') = c.write i bs w in let (a, w2) = c.alive i w' in (n, a, w2)

write_client_lem :
    {W : Type 0} (command data_ : List ℕ) (i n : ℕ) (c : Client W) (s : Server W)
    → load command 4 n ≡ some data_
    → write_client command i n c s
      ≡ some (
        (u16 (wrote c i data_ s.world).0, (wrote c i data_ s.world).1),
        record s { world = (wrote c i data_ s.world).2 },
      )
unfolding write_client ◌>>=◌
write_client_lem command data_ i n c s e = after (bytes command 4 n) _ (bytes_lem command 4 n s e)

module _ {W : Type 0} (net : Net W) (s : Server W) (i : ℕ) (t : SocketType) {c : Client W}
    (lt : i < max_sockets) (at : get_elem? s.socket_types i ≡ some t)
    (client : client_of net t ≡ some c) where
  pub send_socket_data_lem :
      (command data_ : List ℕ) (n : ℕ)
      → get_elem? command 1 ≡ some i
      → load command 2 2 ≡ some (bytes_of 2 n)
      → n < 2 ^ 16
      → load command 4 n ≡ some data_
      → 4 ≤ length s.response
      → send_socket_data net command s
        ≡ some (
          4,
          record s {
            response = put s.response 0 (
                bytes_of 2 (u16 (wrote c i data_ s.world).0)
                ++ flag (wrote c i data_ s.world).1 ∷ 0 ∷ []);
            world = (wrote c i data_ s.world).2;
          },
        )
  unfolding send_socket_data
  send_socket_data_lem command data_ n e1 e2 small e3 room =
      let (count, alive, w) = wrote c i data_ s.world in
      let s' = record s { world = w } in
      let size : word_of (bytes_of 2 n) ≡ n = word_of-bytes_of 2 n (omega arith) in
      after (byte command 1) _ (byte_lem command 1 s e1)
      ∙ after (bytes command 2 2) _ (bytes_lem command 2 2 s e2)
      ∙ after
          (on_socket i (0, false)
            (with_client net (0, false) (write_client command i (word_of (bytes_of 2 n)))))
          _
          (on_open net (0, false) (write_client command i (word_of (bytes_of 2 n))) i t s lt at
              client
            ∙ ap (λ k. write_client command i k c s) size
            ∙ write_client_lem command data_ i n c s e3)
      ∙ after (respond_moved (u16 count) alive) _ (respond_moved_lem (u16 count) alive s' room)

abbrev pub or_nil : Option (List ℕ) → List ℕ
or_nil none = []
or_nil (some bs) = bs

-- the library's answers to a read of at most `n` bytes: the bytes, whether the client is alive,
-- and the world then
abbrev pub fetched : {W : Type 0} → Client W → ℕ → ℕ → W → List ℕ × Bool × W
fetched c i n w = let (o, w') = c.read i n w in let (a, w2) = c.alive i w' in (or_nil o, a, w2)

module _ {W : Type 0} where
  store_read_lem :
      (o : Option (List ℕ)) (s : Server W)
      → 4 + length (or_nil o) ≤ length s.response
      → store_read o s
        ≡ some (length (or_nil o), record s { response = put s.response 4 (or_nil o) })
  unfolding store_read
  store_read_lem none s h =
      ap (λ r. some (0, record s { response = r })) (sym (put_nil s.response 4))
  store_read_lem (some bs) s h = after (respond 4 bs) _ (respond_lem 4 bs s h)

  read_client_lem :
      (i n : ℕ) (c : Client W) (s : Server W)
      → 4 + length (fetched c i n s.world).0 ≤ length s.response
      → read_client i n c s
        ≡ some (
          (u16 (length (fetched c i n s.world).0), (fetched c i n s.world).1),
          record s {
            response = put s.response 4 (fetched c i n s.world).0;
            world = (fetched c i n s.world).2;
          },
        )
  unfolding read_client ask
  read_client_lem i n c s h =
      let (o, w) = c.read i n s.world in
      let s' = record s { world = w } in
      after (ask (c.read i n)) _ refl
      ∙ after (store_read o) _ (store_read_lem o s' h)
      ∙ after (ask (c.alive i)) _ refl

  debug_if :
      (b : Bool) (i : ℕ) {t : SocketType} (s : Server W)
      → get_elem? s.socket_types i ≡ some t
      → (if b then (do t ← socket_type {W = W} i; pure tt) else pure tt) s ≡ some (tt, s)
  unfolding socket_type
  debug_if true i s at = after (socket_type i) _ (fetch_lem s at)
  debug_if false i s at = refl

  debug_read_lem :
      (i : ℕ) {t : SocketType} (s : Server W)
      → get_elem? s.socket_types i ≡ some t
      → debug_read i s ≡ some (tt, s)
  unfolding debug_read gets
  debug_read_lem i s at = after (gets (λ s. s.debug)) _ refl ∙ debug_if s.debug i s at

module _ {W : Type 0} (net : Net W) (s : Server W) (i : ℕ) (t : SocketType) {c : Client W}
    (lt : i < max_sockets) (at : get_elem? s.socket_types i ≡ some t)
    (client : client_of net t ≡ some c) where
  pub read_socket_data_lem :
      (command : List ℕ) (n : ℕ)
      → get_elem? command 1 ≡ some i
      → load command 2 2 ≡ some (bytes_of 2 n)
      → n < 2 ^ 16
      → n + 4 ≤ net.spi_max_dma_len
      → length (fetched c i n s.world).0 ≤ n
      → n + 4 ≤ length s.response
      → read_socket_data net command s
        ≡ some (
          4 + n,
          record s {
            response = put (put s.response 4 (fetched c i n s.world).0) 0 (
                bytes_of 2 (u16 (length (fetched c i n s.world).0))
                ++ flag (fetched c i n s.world).1 ∷ 0 ∷ []);
            world = (fetched c i n s.world).2;
          },
        )
  unfolding read_socket_data
  read_socket_data_lem command n e1 e2 small fits law room =
      let (bs, alive, w) = fetched c i n s.world in
      let s' = record s { response = put s.response 4 bs; world = w } in
      let size : word_of (bytes_of 2 n) ≡ n = word_of-bytes_of 2 n (omega arith) in
      let asked = read_length net (word_of (bytes_of 2 n)) in
      let whole : asked ≡ n =
        ap (read_length net) size ∙ rw (le→ltb_false (net.spi_max_dma_len - 4) n (omega arith)) in
      let len = length-put s.response 4 bs (omega arith) in
      after (byte command 1) _ (byte_lem command 1 s e1)
      ∙ after (bytes command 2 2) _ (bytes_lem command 2 2 s e2)
      ∙ after (debug_read i) _ (debug_read_lem i s at)
      ∙ after (on_socket i (0, false) (with_client net (0, false) (read_client i asked))) _ (
          on_open net (0, false) (read_client i asked) i t s lt at client
          ∙ ap (λ k. read_client i k c s) whole
          ∙ read_client_lem i n c s (omega arith))
      ∙ after (respond_moved (u16 (length bs)) alive) _
          (respond_moved_lem (u16 (length bs)) alive s' (omega (arith, len)))
      ∙ ap
          (λ k. some (
            4 + k,
            record s' {
              response = put s'.response 0 (bytes_of 2 (u16 (length bs)) ++ flag alive ∷ 0 ∷ []);
            },
          ))
          whole
