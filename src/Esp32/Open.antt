-- ===== src/Esp32/Open.antt =====
-- The driver of drivers/esp32 and the firmware of Maixduino_esp32/main together: a TCP connection
-- to an address is opened.
use kendryte_k210_base_proje.Prelude.{
  ℕ, suc, ◌*◌, ◌/◌, ◌%◌, ◌^◌, ◌≤◌, ◌<◌, some, List, [], ◌∷◌, ◌++◌, ◌≡◌, ◌≢◌, refl, sym, ap, ◌∙◌,
  arith, length,
}
use kendryte_k210_base_proje.Memory.{load, put, seg, load_lem, length-put}
use kendryte_k210_base_proje.Bytes.{Octets, bytes_of}
use kendryte_k210_base_proje.Esp32.Commands.{cesp_start_socket_client, cesp_resp}
use kendryte_k210_base_proje.Esp32.Net.{Net}
use kendryte_k210_base_proje.Esp32.Server.{Server, bad_socket_idx, max_sockets}
use kendryte_k210_base_proje.Esp32.Sockets.{first_empty}
use kendryte_k210_base_proje.Esp32.Handle.{loop}
use kendryte_k210_base_proje.Esp32.Run.{get_elem?-lt}
use kendryte_k210_base_proje.Esp32.Table.{first_empty_lem}
use kendryte_k210_base_proje.Esp32.Link
use kendryte_k210_base_proje.Esp32.Link.{Link, set_tx, esp32_transfer, round_up4}
use kendryte_k210_base_proje.Esp32.Link.Receive
use kendryte_k210_base_proje.Esp32.Link.Receive.{put-put_next}
use kendryte_k210_base_proje.Esp32.Link.Exchange.{Exchange, exchanged, esp32_transfer_lem}
use kendryte_k210_base_proje.Esp32.Sock.{put_target, socket_open_internal, socket_open_ip}
use kendryte_k210_base_proje.Esp32.Session.{
  HasBuffers, requested, set_tx_lem, fetch_lem, rx_byte_lem, frame-request,
}
use kendryte_k210_base_proje.Esp32.Connect.{open_request, after_open, loop-open_request}

module _ (l : Link) (a b c d port : ℕ) (buffers : HasBuffers l) where
  open_parts : List ℕ → List ℕ
  open_parts buf =
      put
        (put (put (put buf 0 (cesp_start_socket_client ∷ 0 ∷ [])) 2 (bytes_of 2 port)) 4
          (0 ∷ 0 ∷ 0 ∷ 0 ∷ []))
        8 (a ∷ b ∷ c ∷ d ∷ [])

  open_parts-request :
      open_parts l.tx_buffer ≡ put l.tx_buffer 0 (open_request (a ∷ b ∷ c ∷ d ∷ []) port)
  unfolding open_parts
  open_parts-request =
      let head : List ℕ = cesp_start_socket_client ∷ 0 ∷ [] in
      let mode : List ℕ = 0 ∷ 0 ∷ 0 ∷ 0 ∷ [] in
      let ip : List ℕ = a ∷ b ∷ c ∷ d ∷ [] in
      ap (λ t. put (put t 4 mode) 8 ip)
        (put-put_next l.tx_buffer 0 2 head (bytes_of 2 port) refl (omega (arith, buffers.0)))
      ∙ ap (λ t. put t 8 ip)
          (put-put_next l.tx_buffer 0 4 (head ++ bytes_of 2 port) mode refl
            (omega (arith, buffers.0)))
      ∙ put-put_next l.tx_buffer 0 8 ((head ++ bytes_of 2 port) ++ mode) ip refl
          (omega (arith, buffers.0))

  socket_open_ip_lem :
      (r0 r1 r2 r3 : ℕ) (rest : List ℕ)
      → Exchange (r0 ∷ r1 ∷ r2 ∷ r3 ∷ []) rest l.reads
      → Octets (r0 ∷ r1 ∷ r2 ∷ r3 ∷ [])
      → socket_open_ip (a ∷ b ∷ c ∷ d ∷ []) port 0 l
        ≡ some (
          r0,
          exchanged
              (requested l (open_request (a ∷ b ∷ c ∷ d ∷ []) port))
              12
              (r0 ∷ r1 ∷ r2 ∷ r3 ∷ [])
              rest,
        )
  unfolding socket_open_ip socket_open_internal put_target
  socket_open_ip_lem r0 r1 r2 r3 rest ex octets =
      let head : List ℕ = cesp_start_socket_client ∷ 0 ∷ [] in
      let mode : List ℕ = 0 ∷ 0 ∷ 0 ∷ 0 ∷ [] in
      let ip : List ℕ = a ∷ b ∷ c ∷ d ∷ [] in
      let b1 = put l.tx_buffer 0 head in
      let n1 = length-put l.tx_buffer 0 head (omega (arith, buffers.0)) in
      let b2 = put b1 2 (bytes_of 2 port) in
      let n2 = length-put b1 2 (bytes_of 2 port) (omega (arith, buffers.0, n1)) in
      let b3 = put b2 4 mode in
      let n3 = length-put b2 4 mode (omega (arith, buffers.0, n1, n2)) in
      let n4 = length-put b3 8 ip (omega (arith, buffers.0, n1, n2, n3)) in
      let l' = requested l (open_request ip port) in
      let joined : put b3 8 ip ≡ l'.tx_buffer = unfold open_parts in open_parts-request in
      let size : length l'.tx_buffer ≡ 4090 =
        ap length (sym joined) ∙ n4 ∙ n3 ∙ n2 ∙ n1 ∙ buffers.0 in
      let reply : List ℕ = r0 ∷ r1 ∷ r2 ∷ r3 ∷ [] in
      let word : round_up4 cesp_resp ≡ 4 * suc 0 = unfold round_up4 in refl in
      let twelve : round_up4 12 ≤ 4090 = unfold round_up4 in omega arith in
      let done = exchanged l' 12 reply rest in
      let rx_size = length-put l.rx_buffer 0 reply (omega (arith, buffers.1)) in
      Receive.after (set_tx 0 head) _ (set_tx_lem l 0 head (omega (arith, buffers.0)))
      ∙ Receive.after (set_tx 2 (bytes_of 2 port)) _ (
          set_tx_lem (record l { tx_buffer = b1 }) 2 (bytes_of 2 port)
            (omega (arith, buffers.0, n1)))
      ∙ Receive.after (set_tx 4 mode) _
          (set_tx_lem (record l { tx_buffer = b2 }) 4 mode (omega (arith, buffers.0, n1, n2)))
      ∙ Receive.after (put_target 0 ip) _ (
          Receive.after (Link.fetch (load ip 0 4)) _
            (fetch_lem (record l { tx_buffer = b3 }) (load_lem ip 0 4 (omega arith)))
          ∙ Receive.after (set_tx 8 ip) _ (
              set_tx_lem (record l { tx_buffer = b3 }) 8 ip (omega (arith, buffers.0, n1, n2, n3))
              ∙ ap (λ t. some (tt, record l { tx_buffer = t })) joined))
      ∙ Receive.after (esp32_transfer 12 cesp_resp) _ (
          esp32_transfer_lem l' 12 cesp_resp 0 reply rest word ex (omega (arith, size, twelve))
            octets refl (omega (arith, buffers.1)))
      ∙ rx_byte_lem done 0 (omega (arith, rx_size, buffers.1)) refl

-- the frame that the call sends
abbrev pub open_frame : Link → List ℕ → ℕ → List ℕ
open_frame l ip port = seg (requested l (open_request ip port)).tx_buffer 0 (round_up4 12)

-- An attempt to open a TCP connection to an address while the firmware has a free socket, end to
-- end: the firmware, given the frame that the driver sends, asks the client at the first free
-- socket to connect, makes that socket a TCP socket if this gives anything but 0 and leaves the
-- table as it is otherwise, and answers; and the driver, given that answer on any schedule of polls
-- in time, returns the number of that socket in both cases.
pub socket_open_ip-loop :
    {W : Type 0} (net : Net W) (s : Server W) (l : Link) (a b c d port : ℕ) (rest : List ℕ)
    → first_empty 0 s.socket_types ≢ bad_socket_idx
    → length s.socket_types ≡ max_sockets
    → port < 2 ^ 16
    → 12 ≤ net.spi_max_dma_len
    → HasBuffers l
    → Exchange (bytes_of 4 (first_empty 0 s.socket_types)) rest l.reads
    → (loop net (open_frame l (a ∷ b ∷ c ∷ d ∷ []) port) s
        ≡ some
            (bytes_of 4 (first_empty 0 s.socket_types), after_open net (a ∷ b ∷ c ∷ d ∷ []) port s))
      × (socket_open_ip (a ∷ b ∷ c ∷ d ∷ []) port 0 l
          ≡ some (
            first_empty 0 s.socket_types,
            exchanged
                (requested l (open_request (a ∷ b ∷ c ∷ d ∷ []) port))
                12
                (bytes_of 4 (first_empty 0 s.socket_types))
                rest,
          ))
unfolding round_up4
socket_open_ip-loop net s l a b c d port rest free table small fits buffers ex =
    let ip : List ℕ = a ∷ b ∷ c ∷ d ∷ [] in
    let i = first_empty 0 s.socket_types in
    let (pad, sent) = frame-request l.tx_buffer (open_request ip port) 12 (omega arith) in
    let (j, place, vacant, before) = first_empty_lem s.socket_types 0 free in
    let number : i % 256 ≡ i = omega (arith, place, get_elem?-lt s.socket_types j vacant, table) in
    let octets : Octets (bytes_of 4 i) =
      (omega arith, (omega arith, (omega arith, (omega arith, tt)))) in
    let end = exchanged (requested l (open_request ip port)) 12 (bytes_of 4 i) rest in
    (
      ap (λ f. loop net f s) sent ∙ loop-open_request net s a b c d port pad free small fits,
      socket_open_ip_lem l a b c d port buffers (i % 256) (i / 256 % 256) (i / 256 / 256 % 256)
            (i / 256 / 256 / 256 % 256) rest ex octets
          ∙ ap (λ k. some (k, end)) number,
    )
