-- ===== src/Esp32/Tests.antt =====
-- Commands served by the handler of Maixduino_esp32/main over a library that always succeeds, and
-- the driver of drivers/esp32 on recorded inputs.
use kendryte_k210_base_proje.Prelude.{
  ℕ, ◌+◌, true, Option, none, some, List, [], ◌∷◌, ◌≡◌, ◌≢◌, refl, sym, ◌∙◌, some_inj, arith,
  replicate, get_elem?, length-replicate,
}
use kendryte_k210_base_proje.Esp32.Commands.{cesp_close_socket}
use kendryte_k210_base_proje.Esp32.Net.{Net}
use kendryte_k210_base_proje.Esp32.Server.{Server, tcp, ◌>>=◌}
use kendryte_k210_base_proje.Esp32.Handle.{
  begin, clear_response, handle, handler_of, run, run_entry, loop, serve, received,
}
use kendryte_k210_base_proje.Esp32.Sockets
use kendryte_k210_base_proje.Esp32.Transfer
use kendryte_k210_base_proje.Bytes.{bytes_of}
use kendryte_k210_base_proje.Esp32.Link.{Link, esp32_transfer, round_up4}
use kendryte_k210_base_proje.Esp32.Link.Exchange.{exchanged, ready, esp32_transfer_lem}
use kendryte_k210_base_proje.Esp32.Sock.{socket_write, socket_read, socket_open_ip}
use kendryte_k210_base_proje.Esp32.Served.{write_request, write_reply, after_write}
use kendryte_k210_base_proje.Esp32.Session.{requested, write_frame, socket_write-loop}
use kendryte_k210_base_proje.Esp32.Fetch.{
  read_request, read_reply, read_frame, after_read, socket_read-loop,
}
use kendryte_k210_base_proje.Esp32.Connect.{open_request, after_open}
use kendryte_k210_base_proje.Esp32.Open.{open_frame, socket_open_ip-loop}
use kendryte_k210_base_proje.Esp32.Overrun.{Ready, socket_write_overrun}
use kendryte_k210_base_proje.Esp32.Quiet.{Leaves}
use kendryte_k210_base_proje.Esp32.Table.{Step}
use kendryte_k210_base_proje.Esp32.Dispatch.{handle-Step}
use kendryte_k210_base_proje.Esp32.Run.{Closes, IsTable, serve-open, serve-IsTable}
use kendryte_k210_base_proje.Esp32.Demo.{
  clients, network, power_on, one_open, reads_of, exchanged_at_once, cons-ne-nil, link_with,
  link-HasBuffers,
}

abbrev accept_command : List ℕ
accept_command = 0x0a ∷ 0 ∷ 0 ∷ 0 ∷ []

abbrev send_command : List ℕ
send_command = 0x2C ∷ 0 ∷ 2 ∷ 0 ∷ 65 ∷ 66 ∷ []

handle-Step_example :
    Leaves
      (handle network (received network accept_command) one_open)
      (λ _ us. Step (received network accept_command) one_open.socket_types us)
handle-Step_example = handle-Step network (received network accept_command) one_open

other_code :
    (command : List ℕ) (i code : ℕ)
    → get_elem? command 0 ≡ some code
    → code ≢ cesp_close_socket
    → ¬ Closes command i
other_code command i code at n (close, arg) = n (some_inj (sym at ∙ close))

-- the state that a run of commands leaves
abbrev left_by : Server ℕ → Option (List (List ℕ) × Server ℕ) → Server ℕ
left_by s none = s
left_by s (some (rs, s')) = s'

abbrev commands : List (List ℕ)
commands = accept_command ∷ send_command ∷ []

serve_open_run :
    serve network commands one_open
    ≡ some (
      (1 ∷ 1 ∷ 0 ∷ 0 ∷ []) ∷ (2 ∷ 0 ∷ 1 ∷ 0 ∷ []) ∷ [],
      left_by one_open (serve network commands one_open),
    )
unfolding serve loop clear_response handle handler_of run run_entry begin ◌>>=◌ Sockets.free_socket
    Sockets.first_empty Sockets.on_socket Sockets.with_client Transfer.tcp_server_accept
    Transfer.accept_client Transfer.send_socket_data Transfer.write_client Transfer.respond_moved
serve_open_run = refl

serve-open_example :
    get_elem? (left_by one_open (serve network commands one_open)).socket_types 0 ≡ some tcp
serve-open_example =
    serve-open network commands one_open 0 tcp tt refl
      (
        other_code (received network accept_command) 0 0x0a refl (omega arith),
        (other_code (received network send_command) 0 0x2C refl (omega arith), tt),
      )
      serve_open_run

serve_begin_run :
    serve network commands (begin network power_on)
    ≡ some (
      (0 ∷ 1 ∷ 0 ∷ 0 ∷ []) ∷ (2 ∷ 0 ∷ 1 ∷ 0 ∷ []) ∷ [],
      left_by power_on (serve network commands (begin network power_on)),
    )
unfolding serve loop clear_response handle handler_of run run_entry begin ◌>>=◌ Sockets.free_socket
    Sockets.first_empty Sockets.on_socket Sockets.with_client Transfer.tcp_server_accept
    Transfer.accept_client Transfer.send_socket_data Transfer.write_client Transfer.respond_moved
serve_begin_run = refl

serve-IsTable_example :
    IsTable (left_by power_on (serve network commands (begin network power_on))).socket_types
serve-IsTable_example = serve-IsTable network commands power_on serve_begin_run

abbrev ab : List ℕ
ab = 65 ∷ 66 ∷ []

abbrev write_link : Link
write_link = link_with (reads_of (write_reply clients 0 ab 0))

socket_write-loop_example :
    (loop network (write_frame write_link 0 ab) one_open
      ≡ some (write_reply clients 0 ab 0, after_write network clients 0 ab one_open))
    × (socket_write 0 ab 2 write_link
        ≡ some (
          (2, some true),
          exchanged (requested write_link (write_request 0 ab)) 6 (write_reply clients 0 ab 0) [],
        ))
socket_write-loop_example =
    socket_write-loop network one_open 0 tcp write_link ab [] (omega arith) refl refl
      (link-HasBuffers write_link.reads) (omega arith) (omega arith)
      (exchanged_at_once (write_reply clients 0 ab 0) (cons-ne-nil _ _))

abbrev read_link : Link
read_link = link_with (reads_of (read_reply clients 0 5 0))

socket_read-loop_example :
    (loop network (read_frame read_link 0 5) one_open
      ≡ some (read_reply clients 0 5 0, after_read network clients 0 5 one_open))
    × (socket_read 0 5 read_link
        ≡ some (
          (3, some (true, 7 ∷ 7 ∷ 7 ∷ 0 ∷ 0 ∷ [])),
          exchanged (requested read_link (read_request 0 5)) 4 (read_reply clients 0 5 0) [],
        ))
socket_read-loop_example =
    socket_read-loop network one_open 0 tcp read_link 5 [] (omega arith) refl refl
      (link-HasBuffers read_link.reads) (omega arith) (omega arith) (omega arith) (omega arith)
      (exchanged_at_once (read_reply clients 0 5 0) (cons-ne-nil _ _))

-- a library that cannot connect
abbrev refusing : Net ℕ
refusing = record network { tcp = record clients { connect = λ socket host port w. (0, w + 1) } }

abbrev open_link : Link
open_link = link_with (reads_of (bytes_of 4 1))

socket_open_ip-loop_example :
    (loop refusing (open_frame open_link (10 ∷ 0 ∷ 0 ∷ 1 ∷ []) 80) one_open
      ≡ some (bytes_of 4 1, after_open refusing (10 ∷ 0 ∷ 0 ∷ 1 ∷ []) 80 one_open))
    × (socket_open_ip (10 ∷ 0 ∷ 0 ∷ 1 ∷ []) 80 0 open_link
        ≡ some (
          1,
          exchanged
              (requested open_link (open_request (10 ∷ 0 ∷ 0 ∷ 1 ∷ []) 80))
              12
              (bytes_of 4 1)
              [],
        ))
unfolding Sockets.first_empty
socket_open_ip-loop_example =
    socket_open_ip-loop refusing one_open open_link 10 0 0 1 80 [] (omega arith) refl (omega arith)
      (omega arith) (link-HasBuffers open_link.reads)
      (exchanged_at_once (bytes_of 4 1) (cons-ne-nil _ _))

socket_write_overrun_example :
    socket_write 0 (replicate 4085 65) 4085 (link_with (0 ∷ 0 ∷ 0 ∷ 0 ∷ 0 ∷ 1 ∷ [])) ≡ none
socket_write_overrun_example =
    socket_write_overrun (link_with (0 ∷ 0 ∷ 0 ∷ 0 ∷ 0 ∷ 1 ∷ [])) 0 4085 (replicate 4085 65)
      (link-HasBuffers (0 ∷ 0 ∷ 0 ∷ 0 ∷ 0 ∷ 1 ∷ []))
      (Ready.ready 0 0 (0 ∷ 0 ∷ 0 ∷ 0 ∷ 1 ∷ []) (0 ∷ 1 ∷ []) [] refl (ready 0 refl refl)
        (ready 0 refl refl))
      (omega arith) (omega (arith, length-replicate {A = ℕ} 4085 65))

abbrev transfer_link : Link
transfer_link = link_with (reads_of (1 ∷ 2 ∷ 3 ∷ 4 ∷ []))

esp32_transfer_lem_example :
    esp32_transfer 5 3 transfer_link
    ≡ some (true, exchanged transfer_link 5 (1 ∷ 2 ∷ 3 ∷ 4 ∷ []) [])
unfolding round_up4
esp32_transfer_lem_example =
    esp32_transfer_lem transfer_link 5 3 0 (1 ∷ 2 ∷ 3 ∷ 4 ∷ []) [] refl
      (exchanged_at_once (1 ∷ 2 ∷ 3 ∷ 4 ∷ []) (cons-ne-nil _ _))
      (omega (arith, length-replicate {A = ℕ} 4090 9)) (omega arith) refl
      (omega (arith, length-replicate {A = ℕ} 4090 9))
