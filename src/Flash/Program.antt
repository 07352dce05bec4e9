-- ===== src/Flash/Program.antt =====
-- drivers/flash/flash.c: flash_is_busy, the wait for it, and flash_page_program.
use kendryte_k210_base_proje.Prelude.{
  ℕ, zero, suc, ◌-◌, ◌≤◌, ◌<◌, min, ◌≡◌, ◌≢◌, sym, ap, ap₂, ◌∙◌, some, List, [], ◌∷◌, ◌++◌,
  append_assoc, append-nil, u8, bit_and, ◌==◌, if◌then◌else◌, length, take, drop, length-append,
  ne→==_false, arith, subst, take-nil, drop-nil,
}
use kendryte_k210_base_proje.FlashBus.{
  Reg, ctrlr0, ssienr, ser, Status, flash_ok, flash_busy, Flash, M, pure, ◌>>◌, with_fuel,
  ctrlr0_value, receive_data, send_data,
}
use kendryte_k210_base_proje.FlashBus.Receive.{
  Feeds, after, with_reads, receive_writes, receive_data_enhanced_lem,
}
use kendryte_k210_base_proje.FlashBus.Send.{Takes, Settles, to_dr, send_data_enhanced_lem}
use kendryte_k210_base_proje.Flash.{
  is_busy, wait_ready, write_enable, page_program, addr_bytes, nth,
}

-- what a device answers to the polls of the status until it is ready
pub data Polls : List ℕ → Type 0 where
  ready :
      {script : List ℕ} (status : ℕ)
      → Feeds 1 script (status ∷ [])
      → bit_and (u8 status) 0x01 ≡ 0
      → Polls script
  still_busy :
      {script more : List ℕ} (status : ℕ)
      → Feeds 1 script (status ∷ [])
      → bit_and (u8 status) 0x01 ≢ 0
      → Polls more
      → Polls (script ++ more)

-- the register writes of one poll
abbrev pub poll_writes : Flash → List (Reg × ℕ)
poll_writes f = (ctrlr0, ctrlr0_value f 0x03) ∷ receive_writes (0x05 ∷ []) 1

-- the state behind some reads and writes
abbrev pub moved : Flash → List ℕ → List (Reg × ℕ) → Flash
moved f vs ws = record f { reads = vs; writes = f.writes ++ ws }

is_busy_lem :
    {script : List ℕ} (status : ℕ) (rest : List ℕ) (f : Flash)
    → Feeds 1 script (status ∷ [])
    → is_busy (with_reads f (script ++ rest))
      ≡ some (
        (if bit_and (u8 status) 0x01 == 0 then flash_ok else flash_busy),
        moved f rest (poll_writes f),
      )
unfolding is_busy receive_data
is_busy_lem {script} status rest f fed =
    let begun : Flash = record f { writes = f.writes ++ (ctrlr0, ctrlr0_value f 0x03) ∷ [] } in
    let judge : ℕ → M Status = λ v. pure (if bit_and v 0x01 == 0 then flash_ok else flash_busy) in
    ap (λ r. after judge (after (λ bs. nth bs 0) r))
      (receive_data_enhanced_lem (0x05 ∷ []) 1 rest begun fed (omega arith)).0
    ∙ ap
        (λ l. some (
          (if bit_and (u8 status) 0x01 == 0 then flash_ok else flash_busy),
          record f { reads = rest; writes = l },
        ))
        (append_assoc f.writes ((ctrlr0, ctrlr0_value f 0x03) ∷ []) (receive_writes (0x05 ∷ []) 1))

length-Feeds_script : {script bytes : List ℕ} → Feeds 1 script bytes → 0 < length script
length-Feeds_script (Feeds.round level now h e rest) = omega arith

-- the polls in a row
unfoldable pub repeat_writes : ℕ → List (Reg × ℕ) → List (Reg × ℕ)
repeat_writes zero ws = []
repeat_writes (suc n) ws = ws ++ repeat_writes n ws

wait_ready_lem :
    (fuel : ℕ) {script : List ℕ} (rest : List ℕ) (f : Flash)
    → Polls script
    → length script < fuel
    → (n : ℕ) × (wait_ready fuel (with_reads f (script ++ rest))
        ≡ some (flash_ok, moved f rest (repeat_writes n (poll_writes f))))
unfolding wait_ready repeat_writes
wait_ready_lem zero rest f polls h = absurd (omega arith)
wait_ready_lem (suc fuel) rest f (ready status fed e) h =
    let next : Status → M Status =
      λ s. elim s [ flash_ok ↦ pure flash_ok | flash_busy ↦ wait_ready fuel ] in
    (
      1,
      ap (after next) (is_busy_lem status rest f fed)
          ∙ ap
              (λ v.
                after next
                  (some ((if v == 0 then flash_ok else flash_busy), moved f rest (poll_writes f))))
              e
          ∙ ap (λ l. some (flash_ok, moved f rest l)) (sym (append-nil (poll_writes f))),
    )
wait_ready_lem (suc fuel) rest f (still_busy {script} {more} status fed e polls) h =
    let next : Status → M Status =
      λ s. elim s [ flash_ok ↦ pure flash_ok | flash_busy ↦ wait_ready fuel ] in
    let g : Flash = record f { writes = f.writes ++ poll_writes f } in
    let (n, runs) =
      wait_ready_lem fuel rest g polls
        (omega (arith, length-append script more, length-Feeds_script fed)) in
    (
      suc n,
      ap (λ vs. after next (is_busy (with_reads f vs))) (append_assoc script more rest)
          ∙ ap (after next) (is_busy_lem status (more ++ rest) f fed)
          ∙ ap
              (λ b. after next (
                some
                  ((if b then flash_ok else flash_busy), moved f (more ++ rest) (poll_writes f))))
              (ne→==_false (bit_and (u8 status) 0x01) 0 e)
          ∙ runs
          ∙ ap (λ l. some (flash_ok, record f { reads = rest; writes = l }))
              (append_assoc f.writes (poll_writes f) (repeat_writes n (poll_writes f))),
    )

-- the register writes of a transfer that sends, with `n` bytes before the chip select
abbrev pub send_writes : Flash → List ℕ → List ℕ → ℕ → List (Reg × ℕ)
send_writes f cmd tx n =
    (ctrlr0, ctrlr0_value f 0x01)
    ∷ (ssienr, 0x01)
    ∷ (to_dr (cmd ++ take n tx)
        ++ ((ser, 0x01) ∷ (to_dr (drop n tx) ++ ((ser, 0x00) ∷ (ssienr, 0x00) ∷ []))))

send_data_lem :
    {levels srs : List ℕ} (cmd tx : List ℕ) (level : ℕ) (rest : List ℕ) (f : Flash)
    → level ≤ 32
    → Takes (length tx - min (32 - level) (length tx)) levels
    → Settles srs
    → (n : ℕ) × (send_data cmd tx (with_reads f (level ∷ levels ++ (srs ++ rest)))
        ≡ some (tt, moved f rest (send_writes f cmd tx n)))
unfolding send_data
send_data_lem cmd tx level rest f h takes settles =
    let begun : Flash = record f { writes = f.writes ++ (ctrlr0, ctrlr0_value f 0x01) ∷ [] } in
    let (n, is_n, runs) = send_data_enhanced_lem cmd tx level rest begun h takes settles in
    (n, runs ∙ ap (λ l. some (tt, record f { reads = rest; writes = l })) (simp (append_assoc)))

write_enable_lem :
    {srs : List ℕ} (level : ℕ) (rest : List ℕ) (f : Flash)
    → level ≤ 32
    → Settles srs
    → write_enable (with_reads f (level ∷ srs ++ rest))
      ≡ some (tt, moved f rest (send_writes f (0x06 ∷ []) [] 0))
unfolding write_enable
write_enable_lem level rest f h settles =
    let nothing_left : 0 ≡ 0 - min (32 - level) 0 = omega arith in
    let (n, runs) =
      send_data_lem (0x06 ∷ []) [] level rest f h
        (subst (λ k. Takes k []) nothing_left Takes.finished) settles in
    runs
    ∙ ap₂
        (λ a b. some (
          tt,
          moved f rest (
              (ctrlr0, ctrlr0_value f 0x01)
              ∷ (ssienr, 0x01)
              ∷ (to_dr (0x06 ∷ a)
                  ++ ((ser, 0x01) ∷ (to_dr b ++ ((ser, 0x00) ∷ (ssienr, 0x00) ∷ []))))),
        ))
        (take-nil n) (drop-nil n)

-- `flash_page_program` ends, with FLASH_OK, for every device that takes the write enable and the bytes,
-- and answers the polls of its status until it is ready, however long it is busy. It writes the write
-- enable first, then the command with the address and all bytes in order, then the polls, and nothing
-- else.
pub page_program_lem :
    {srs0 levels srs polls : List ℕ} (addr : ℕ) (bytes : List ℕ) (level0 level : ℕ) (rest : List ℕ)
    (f : Flash)
    → level0 ≤ 32
    → Settles srs0
    → level ≤ 32
    → Takes (length bytes - min (32 - level) (length bytes)) levels
    → Settles srs
    → Polls polls
    → (n k : ℕ) × (page_program addr bytes
          (with_reads f (level0 ∷ srs0 ++ (level ∷ levels ++ (srs ++ (polls ++ rest)))))
        ≡ some (
          flash_ok,
          moved f rest (
              send_writes f (0x06 ∷ []) [] 0
              ++ (send_writes f (0x02 ∷ addr_bytes addr) bytes n
                  ++ repeat_writes k (poll_writes f))),
        ))
unfolding page_program
page_program_lem {srs0} {levels} {srs} {polls} addr bytes level0 level rest f h0 s0 h takes s p =
    let ws0 : List (Reg × ℕ) = send_writes f (0x06 ∷ []) [] 0 in
    let reads1 : List ℕ = level ∷ levels ++ (srs ++ (polls ++ rest)) in
    let f1 : Flash = record f { writes = f.writes ++ ws0 } in
    let (n, sends) =
      send_data_lem (0x02 ∷ addr_bytes addr) bytes level (polls ++ rest) f1 h takes s in
    let ws1 : List (Reg × ℕ) = send_writes f (0x02 ∷ addr_bytes addr) bytes n in
    let f2 : Flash = record f { writes = (f.writes ++ ws0) ++ ws1 } in
    let (k, waits) =
      wait_ready_lem (suc (length (polls ++ rest))) rest f2 p
        (omega (arith, length-append polls rest)) in
    (
      n,
      k,
      ap (after (λ u. send_data (0x02 ∷ addr_bytes addr) bytes >> with_fuel wait_ready))
            (write_enable_lem level0 reads1 f h0 s0)
          ∙ ap (after (λ u. with_fuel wait_ready)) sends
          ∙ waits
          ∙ ap (λ l. some (flash_ok, record f { reads = rest; writes = l }))
              (append_assoc (f.writes ++ ws0) ws1 (repeat_writes k (poll_writes f))
                ∙ append_assoc f.writes ws0 (ws1 ++ repeat_writes k (poll_writes f))),
    )
