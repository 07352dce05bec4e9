-- ===== src/Esp32/Commands.antt =====
-- Maixduino_esp32/main/Esp32CommandList.h: the codes of the commands, and the lengths of answers.
use kendryte_k210_base_proje.Prelude.{ℕ}

abbrev pub cesp_invert_bytes : ℕ
cesp_invert_bytes = 0x00

abbrev pub cesp_set_debug : ℕ
cesp_set_debug = 0x01

abbrev pub cesp_get_fw_version : ℕ
cesp_get_fw_version = 0x02

abbrev pub cesp_get_temperature : ℕ
cesp_get_temperature = 0x03

abbrev pub cesp_soft_reset : ℕ
cesp_soft_reset = 0x04

abbrev pub cesp_tcp_server_create : ℕ
cesp_tcp_server_create = 0x08

abbrev pub cesp_tcp_server_stop : ℕ
cesp_tcp_server_stop = 0x09

abbrev pub cesp_tcp_server_accept : ℕ
cesp_tcp_server_accept = 0x0a

abbrev pub cesp_set_ssid_and_pass : ℕ
cesp_set_ssid_and_pass = 0x11

abbrev pub cesp_scan_networks : ℕ
cesp_scan_networks = 0x12

abbrev pub cesp_scan_networks_result : ℕ
cesp_scan_networks_result = 0x13

abbrev pub cesp_starting_ap : ℕ
cesp_starting_ap = 0x14

abbrev pub cesp_get_conn_status : ℕ
cesp_get_conn_status = 0x20

abbrev pub cesp_get_ip_addr : ℕ
cesp_get_ip_addr = 0x21

abbrev pub cesp_start_socket_client : ℕ
cesp_start_socket_client = 0x28

abbrev pub cesp_close_socket : ℕ
cesp_close_socket = 0x29

abbrev pub cesp_get_socket_state : ℕ
cesp_get_socket_state = 0x2A

abbrev pub cesp_avail_socket_data : ℕ
cesp_avail_socket_data = 0x2B

abbrev pub cesp_send_socket_data : ℕ
cesp_send_socket_data = 0x2C

abbrev pub cesp_read_socket_data : ℕ
cesp_read_socket_data = 0x2D

abbrev pub cesp_req_host_by_name : ℕ
cesp_req_host_by_name = 0x34

abbrev pub cesp_ping : ℕ
cesp_ping = 0x3E

-- the length of most answers, and the longer ones
abbrev pub cesp_resp : ℕ
cesp_resp = 4

abbrev pub cesp_resp_fw_version : ℕ
cesp_resp_fw_version = 16

abbrev pub cesp_resp_get_ip_addr : ℕ
cesp_resp_get_ip_addr = 12

abbrev pub cesp_resp_req_host_by_name : ℕ
cesp_resp_req_host_by_name = 8
