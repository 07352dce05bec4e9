-- ===== src/FlashBus/Send.antt =====
-- drivers/flash/flash.c: flash_send_data_enhanced, and how a device takes its bytes.
use kendryte_k210_base_proje.Prelude.{
  ℕ, zero, suc, ◌-◌, ◌≤◌, ◌<◌, min, ◌≡◌, ◌≢◌, refl, sym, ap, ◌∙◌, false, some, List, [], ◌∷◌, ◌++◌,
  map, append_assoc, append-nil, ltb, ◌==◌, if◌then◌else◌, sub32, length, take, drop,
  take-append-drop, length-append, length-drop, ne→==_false, arith, bit_and,
}
use kendryte_k210_base_proje.FlashBus.{
  Reg, ssienr, ser, dr, Flash, M, pure, ◌>>=◌, ◌>>◌, set_reg, with_fuel, get_reg, fill_fifo,
  send_loop, wait_sent, send_data_enhanced,
}
use kendryte_k210_base_proje.FlashBus.Receive.{after, send_all_lem, with_reads}

-- the levels of the transmit FIFO that the device shows until `left` bytes are in it
pub data Takes : ℕ → List ℕ → Type 0 where
  finished : Takes 0 []
  round :
      {left : ℕ} (level : ℕ) {script : List ℕ}
      → 0 < left
      → level ≤ 32
      → Takes (left - min (32 - level) left) script
      → Takes left (level ∷ script)

-- the status words until the FIFO is empty and the bus is idle
pub data Settles : List ℕ → Type 0 where
  idle : (sr : ℕ) → bit_and sr 0x05 ≡ 0x04 → Settles (sr ∷ [])
  busy : (sr : ℕ) {srs : List ℕ} → bit_and sr 0x05 ≢ 0x04 → Settles srs → Settles (sr ∷ srs)

abbrev pub to_dr : List ℕ → List (Reg × ℕ)
to_dr bs = map (λ b. (dr, b)) bs

to_dr-append : (xs ys : List ℕ) → to_dr (xs ++ ys) ≡ to_dr xs ++ to_dr ys
to_dr-append [] ys = refl
to_dr-append (x ∷ xs) ys = ap (◌∷◌ (dr, x)) (to_dr-append xs ys)

wait_sent_lem :
    (fuel : ℕ) {srs : List ℕ} (rest : List ℕ) (f : Flash)
    → Settles srs
    → length srs ≤ fuel
    → wait_sent fuel (with_reads f (srs ++ rest)) ≡ some (tt, with_reads f rest)
unfolding wait_sent get_reg
wait_sent_lem zero rest f (idle sr e) h = absurd (omega arith)
wait_sent_lem zero rest f (busy sr e s) h = absurd (omega arith)
wait_sent_lem (suc fuel) rest f (idle sr e) h = rw (e)
wait_sent_lem (suc fuel) rest f (busy sr e s) h =
    rw (ne→==_false (bit_and sr 0x05) 0x04 e) (wait_sent_lem fuel rest f s (omega arith))

-- one filling of the FIFO
fill_fifo_lem :
    (tx : List ℕ) (level : ℕ) (vs : List ℕ) (f : Flash)
    → level ≤ 32
    → fill_fifo tx (with_reads f (level ∷ vs))
      ≡ some (
        min (32 - level) (length tx),
        record f {
          reads = vs;
          writes = f.writes ++ to_dr (take (min (32 - level) (length tx)) tx);
        },
      )
unfolding fill_fifo get_reg
fill_fifo_lem tx level vs f h =
    let room : sub32 32 level ≡ 32 - level = omega arith in
    let n : (if ltb (32 - level) (length tx) then 32 - level else length tx)
        ≡ min (32 - level) (length tx) =
      ground arith in
    rw (room, n)
      (ap (after (λ u. pure (min (32 - level) (length tx))))
        (send_all_lem (take (min (32 - level) (length tx)) tx) (with_reads f vs)))

send_loop_lem :
    (fuel : ℕ) (tx : List ℕ) {left : ℕ} {levels : List ℕ} (rest : List ℕ) (f : Flash)
    → Takes left levels
    → length tx ≡ left
    → length levels < fuel
    → send_loop fuel tx (with_reads f (levels ++ rest))
      ≡ some (tt, record f { reads = rest; writes = f.writes ++ to_dr tx })
unfolding send_loop
send_loop_lem zero tx rest f takes e h = absurd (omega arith)
send_loop_lem (suc fuel) [] rest f finished e h =
    ap (λ l. some (tt, record f { reads = rest; writes = l })) (sym (append-nil f.writes))
send_loop_lem (suc fuel) (b ∷ bs) rest f finished e h = absurd (omega (arith, e))
send_loop_lem (suc fuel) tx rest f (round {left} level {script} hl hv takes) e h =
    let n : ℕ = min (32 - level) (length tx) in
    let nonempty : (length tx == 0) ≡ false = ne→==_false (length tx) 0 (omega (arith, e)) in
    let remaining : length (drop n tx) ≡ left - min (32 - level) left =
      length-drop n tx ∙ ap (λ k. k - min (32 - level) k) e in
    let joined : (f.writes ++ to_dr (take n tx)) ++ to_dr (drop n tx) ≡ f.writes ++ to_dr tx =
      append_assoc f.writes (to_dr (take n tx)) (to_dr (drop n tx))
      ∙ ap (λ l. f.writes ++ l)
          (sym (to_dr-append (take n tx) (drop n tx)) ∙ ap to_dr (take-append-drop n tx)) in
    rw nonempty (
      ap (after (λ k. send_loop fuel (drop k tx))) (fill_fifo_lem tx level (script ++ rest) f hv)
      ∙ send_loop_lem fuel (drop n tx) rest (record f { writes = f.writes ++ to_dr (take n tx) })
          takes remaining (omega arith)
      ∙ ap (λ l. some (tt, record f { reads = rest; writes = l })) joined)

-- `flash_send_data_enhanced` returns for every device that takes the bytes and then gets idle. With
-- `n` the bytes that fit into the FIFO at first, it writes the enable, the command, `n` bytes, the
-- chip select on, the other bytes, the chip select off and the disable: the bytes sent are the
-- command and all of `tx` in order, each once.
pub send_data_enhanced_lem :
    {levels srs : List ℕ} (cmd tx : List ℕ) (level : ℕ) (rest : List ℕ) (f : Flash)
    → level ≤ 32
    → Takes (length tx - min (32 - level) (length tx)) levels
    → Settles srs
    → (n : ℕ) × (n ≡ min (32 - level) (length tx))
      × (send_data_enhanced cmd tx (record f { reads = level ∷ levels ++ (srs ++ rest) })
          ≡ some (
            tt,
            record f {
              reads = rest;
              writes =
                  f.writes
                  ++ (ssienr, 0x01) ∷ to_dr (cmd ++ take n tx)
                  ++ (ser, 0x01) ∷ to_dr (drop n tx)
                  ++ (ser, 0x00) ∷ (ssienr, 0x00) ∷ [];
            },
          ))
unfolding send_data_enhanced
send_data_enhanced_lem {levels} {srs} cmd tx level rest f hv takes settles =
    let n : ℕ = min (32 - level) (length tx) in
    let D : List ℕ → List (Reg × ℕ) = λ l. to_dr l in
    let finish : M (Unit {0}) = set_reg ser 0x00 >> set_reg ssienr 0x00 in
    let wait : M (Unit {0}) = with_fuel wait_sent >> finish in
    let more : ℕ → M (Unit {0}) =
      λ k. (do set_reg ser 0x01; with_fuel (λ i. send_loop i (drop k tx)); wait) in
    let w1 : List (Reg × ℕ) = f.writes ++ (ssienr, 0x01) ∷ [] in
    let w2 : List (Reg × ℕ) = w1 ++ to_dr cmd in
    let w3 : List (Reg × ℕ) = (w2 ++ to_dr (take n tx)) ++ (ser, 0x01) ∷ [] in
    let w4 : List (Reg × ℕ) = w3 ++ to_dr (drop n tx) in
    let reads1 : List ℕ = level ∷ levels ++ (srs ++ rest) in
    let all : (w4 ++ (ser, 0x00) ∷ []) ++ (ssienr, 0x00) ∷ []
        ≡ f.writes
          ++ (ssienr, 0x01) ∷ to_dr (cmd ++ take n tx)
          ++ (ser, 0x01) ∷ to_dr (drop n tx)
          ++ (ser, 0x00) ∷ (ssienr, 0x00) ∷ [] =
      simp (append_assoc, to_dr-append) in
    (
      n,
      refl,
      ap (after (λ u. fill_fifo tx >>= more))
            (send_all_lem cmd (record f { writes = w1; reads = reads1 }))
          ∙ ap (after more)
              (fill_fifo_lem tx level (levels ++ (srs ++ rest)) (record f { writes = w2 }) hv)
          ∙ ap (after (λ u. wait)) (
              send_loop_lem (suc (length (levels ++ (srs ++ rest)))) (drop n tx) (srs ++ rest)
                (record f { writes = w3 }) takes (length-drop n tx)
                (omega (arith, length-append levels (srs ++ rest))))
          ∙ ap (after (λ u. finish)) (
              wait_sent_lem (suc (length (srs ++ rest))) rest (record f { writes = w4 }) settles
                (omega (arith, length-append srs rest)))
          ∙ ap (λ l. some (tt, record f { reads = rest; writes = l })) all,
    )
