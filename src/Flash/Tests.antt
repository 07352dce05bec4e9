-- ===== src/Flash/Tests.antt =====
-- Runs of the flash driver against concrete devices.
use kendryte_k210_base_proje.Prelude.{
  ℕ, ◌-◌, min, ◌≡◌, refl, some, List, [], ◌∷◌, ◌++◌, map, u8, length, take, drop, arith,
}
use kendryte_k210_base_proje.FlashBus.{
  ssienr, ser, Flash, flash_ok, pure, flash_page_program, flash_stand_read_data,
  receive_data_enhanced, send_data_enhanced,
}
use kendryte_k210_base_proje.FlashBus.Receive.{Feeds, receive_writes, receive_data_enhanced_lem}
use kendryte_k210_base_proje.FlashBus.Send.{
  Takes, Settles, to_dr, idle, busy, send_data_enhanced_lem,
}
use kendryte_k210_base_proje.Flash.{page_program_fun, flash_standard_fast}
use kendryte_k210_base_proje.FlashBus.Receive.{with_reads}
use kendryte_k210_base_proje.Flash.{page_program, addr_bytes}
use kendryte_k210_base_proje.Flash.Program.{
  Polls, ready, still_busy, poll_writes, moved, repeat_writes, send_writes, page_program_lem,
}
use kendryte_k210_base_proje.Flash.Data.{write_data, read_data}
use kendryte_k210_base_proje.Flash.Write.{Calls, Covers, run_calls, write_data_lem}
use kendryte_k210_base_proje.Flash.Read.{no_fast, read_data-HasNoCase}

-- after `flash_init`
abbrev ready_flash : Flash
ready_flash = record {
  dfs_offset = 0;
  tmod_offset = 10;
  frf_offset = 22;
  page_program_fun = some flash_page_program;
  read_fun = some flash_stand_read_data;
  writes = [];
  reads = [];
}

abbrev three : List ℕ
three = 1 ∷ 2 ∷ 3 ∷ []

write_data_lem_example :
    (cs : Calls) × (write_data 0xFE three 3 ≡ run_calls page_program_fun cs (pure flash_ok))
    × Covers 0xFE three cs
write_data_lem_example = write_data_lem 0xFE three 3 (omega arith) (omega arith) (omega arith)

read_data-HasNoCase_example :
    read_data 0x1000 three flash_standard_fast ready_flash ≡ some (three, ready_flash)
read_data-HasNoCase_example = read_data-HasNoCase 0x1000 three ready_flash no_fast

-- two bytes, of which the device has none at first and then one at a time
fed : Feeds 2 (0 ∷ 1 ∷ 0xEF ∷ 1 ∷ 0x16 ∷ []) (0xEF ∷ 0x16 ∷ [])
fed = Feeds.round 0 [] (omega arith) refl (
    Feeds.round 1 (0xEF ∷ []) (omega arith) refl
      (Feeds.round 1 (0x16 ∷ []) (omega arith) refl Feeds.finished))

receive_data_enhanced_lem_example :
    (receive_data_enhanced
        (0x90 ∷ [])
        2
        (record ready_flash { reads = (0 ∷ 1 ∷ 0xEF ∷ 1 ∷ 0x16 ∷ []) ++ 5 ∷ [] })
      ≡ some (
        map u8 (0xEF ∷ 0x16 ∷ []),
        record ready_flash { reads = 5 ∷ []; writes = [] ++ receive_writes (0x90 ∷ []) 2 },
      ))
    × (length (map u8 (0xEF ∷ 0x16 ∷ [])) ≡ 2)
receive_data_enhanced_lem_example =
    receive_data_enhanced_lem (0x90 ∷ []) 2 (5 ∷ []) ready_flash fed (omega arith)

-- the FIFO has room for one byte at first
taken : Takes (3 - min (32 - 31) 3) (32 ∷ 0 ∷ [])
taken =
    Takes.round 32 (omega arith) (omega arith)
      (Takes.round 0 (omega arith) (omega arith) Takes.finished)

settled : Settles (1 ∷ 4 ∷ [])
settled = busy 1 (λ h. absurd (omega (arith, h))) (idle 4 refl)

send_data_enhanced_lem_example :
    (n : ℕ) × (n ≡ min (32 - 31) 3)
    × (send_data_enhanced
          (0x02 ∷ [])
          three
          (record ready_flash { reads = 31 ∷ (32 ∷ 0 ∷ []) ++ ((1 ∷ 4 ∷ []) ++ []) })
        ≡ some (
          tt,
          record ready_flash {
            reads = [];
            writes =
                []
                ++ (ssienr, 0x01) ∷ to_dr ((0x02 ∷ []) ++ take n three)
                ++ (ser, 0x01) ∷ to_dr (drop n three)
                ++ (ser, 0x00) ∷ (ssienr, 0x00) ∷ [];
          },
        ))
send_data_enhanced_lem_example =
    send_data_enhanced_lem (0x02 ∷ []) three 31 [] ready_flash (omega arith) taken settled

-- busy once, then ready
polled : Polls (1 ∷ 3 ∷ (1 ∷ 0 ∷ []))
polled =
    still_busy {script = 1 ∷ 3 ∷ []} 3 (Feeds.round 1 (3 ∷ []) (omega arith) refl Feeds.finished)
      (λ h. absurd (omega (arith, h)))
      (ready 0 (Feeds.round 1 (0 ∷ []) (omega arith) refl Feeds.finished) refl)

page_program_lem_example :
    (n k : ℕ) × (page_program 0x1000 three (
        with_reads ready_flash
          (0 ∷ (4 ∷ []) ++ (31 ∷ (32 ∷ 0 ∷ []) ++ ((1 ∷ 4 ∷ []) ++ ((1 ∷ 3 ∷ 1 ∷ 0 ∷ []) ++ [])))))
      ≡ some (
        flash_ok,
        moved ready_flash [] (
            send_writes ready_flash (0x06 ∷ []) [] 0
            ++ (send_writes ready_flash (0x02 ∷ addr_bytes 0x1000) three n
                ++ repeat_writes k (poll_writes ready_flash))),
      ))
page_program_lem_example =
    page_program_lem 0x1000 three 0 31 [] ready_flash (omega arith) (idle 4 refl) (omega arith)
      taken settled polled
