-- ===== src/Esp32/Link/Exchange.antt =====
-- drivers/esp32/esp32_spi.cpp: `esp32_transfer` with a device that answers.
use kendryte_k210_base_proje.Prelude.{
  ℕ, zero, suc, ◌+◌, ◌*◌, ◌/◌, ◌%◌, ◌^◌, ◌≤◌, ◌<◌, Bool, true, false, Option, some, List, [], ◌∷◌,
  ◌++◌, ◌≡◌, ◌≢◌, refl, sym, ap, subst, ◌∙◌, arith, ltb, length, ne→==_false, ==_iff, append_assoc,
}
use kendryte_k210_base_proje.Memory.{put, seg, load_lem}
use kendryte_k210_base_proje.Bytes.{Octets}
use kendryte_k210_base_proje.Esp32.Link.{
  Link, Out, chip_select, frame, read, out, tx, fetch, sub64, wait_loop, wait_for_ready,
  spi2_slave_receive4, esp32_transfer, round_up4,
}
use kendryte_k210_base_proje.Esp32.Link.Receive.{on, after, read_lem}
use kendryte_k210_base_proje.Esp32.Link.Deliver.{Delivers, words_of, spi2_slave_receive4_lem}

-- Reads on which a wait for the ready pin ends: by the pin's level, or by the time.
pub data Polled (value timeout tm : ℕ) (rest : List ℕ) : List ℕ → Type 0 where
  ready :
      (now : ℕ) {reads : List ℕ}
      → ltb (sub64 now tm) timeout ≡ true
      → reads ≡ now ∷ value ∷ rest
      → Polled value timeout tm rest reads
  again :
      (now pin : ℕ) {r reads : List ℕ}
      → ltb (sub64 now tm) timeout ≡ true
      → pin ≢ value
      → Polled value timeout tm rest r
      → reads ≡ now ∷ pin ∷ r
      → Polled value timeout tm rest reads
  late :
      (now : ℕ) {reads : List ℕ}
      → ltb (sub64 now tm) timeout ≡ false
      → reads ≡ now ∷ rest
      → Polled value timeout tm rest reads

module _ (l : Link) (buf : List ℕ) (value timeout tm : ℕ) (rest : List ℕ) where
  abbrev ReturnsToRest : Option (Bool × Link) → Type 0
  ReturnsToRest r = (b : Bool) × (r ≡ some (b, on l rest buf))

  at_reads :
      (fuel : ℕ) {reads other : List ℕ}
      → reads ≡ other
      → ReturnsToRest (wait_loop fuel value timeout tm (on l other buf))
      → ReturnsToRest (wait_loop fuel value timeout tm (on l reads buf))
  at_reads fuel e h =
      subst (λ rs. ReturnsToRest (wait_loop fuel value timeout tm (on l rs buf))) (sym e) h

  wait_loop_lem :
      {reads : List ℕ} (fuel : ℕ)
      → Polled value timeout tm rest reads
      → length reads < fuel
      → ReturnsToRest (wait_loop fuel value timeout tm (on l reads buf))
  unfolding wait_loop
  wait_loop_lem zero d h = absurd (omega arith)
  wait_loop_lem (suc fuel) (ready now in_time e) h = at_reads (suc fuel) e (
    true,
    after read _ (read_lem (on l [] buf) now (value ∷ rest))
        ∙ rw in_time
            (after read _ (read_lem (on l [] buf) value rest) ∙ rw ((==_iff value value).1 refl)),
  )
  wait_loop_lem {reads} (suc fuel) (again now pin {r} in_time ne d e) h =
      let len : length reads ≡ length r + 2 = ap length e ∙ omega arith in
      let (b, ih) = wait_loop_lem fuel d (omega (arith, len)) in
      at_reads (suc fuel) e (
        b,
        after read _ (read_lem (on l [] buf) now (pin ∷ r))
            ∙ rw in_time
                (after read _ (read_lem (on l [] buf) pin r) ∙ rw (ne→==_false pin value ne) ih),
      )
  wait_loop_lem (suc fuel) (late now in_time e) h =
      at_reads (suc fuel) e (false, after read _ (read_lem (on l [] buf) now rest) ∙ rw in_time)

-- Reads of a whole exchange: a wait for each level of the ready pin, then a device that delivers
-- the reply within ten seconds. Then `rest` is still to be read.
pub data Exchange (reply rest reads : List ℕ) : Type 0 where
  exchange :
      (tm tm' start freq : ℕ) (waited waited' delivered : List ℕ)
      → reads ≡ tm ∷ waited
      → Polled 0 (10 * 1000000) tm (tm' ∷ waited') waited
      → Polled 1 1000000 tm' (start ∷ freq ∷ delivered) waited'
      → Delivers start (10 * 1000000 * (freq / 1000000) % 2 ^ 64) rest (words_of reply) delivered
      → Exchange reply rest reads

-- the link after the exchange: the frame was sent between two moves of the chip select
abbrev pub exchanged : Link → ℕ → List ℕ → List ℕ → Link
exchanged l tx_len reply rest = record {
  tx_buffer = l.tx_buffer;
  rx_buffer = put l.rx_buffer 0 reply;
  rst_num = l.rst_num;
  outs =
      l.outs ++ chip_select 0 ∷ frame (seg l.tx_buffer 0 (round_up4 tx_len)) ∷ chip_select 1 ∷ [];
  reads = rest;
}

pub wait_for_ready_lem :
    (l : Link) (value timeout tm : ℕ) (reads rest : List ℕ)
    → Polled value timeout tm rest reads
    → (b : Bool) × (wait_for_ready value timeout (record l { reads = tm ∷ reads })
        ≡ some (b, record l { reads = rest }))
unfolding wait_for_ready
wait_for_ready_lem l value timeout tm reads rest d =
    let (b, e) =
      wait_loop_lem l l.rx_buffer value timeout tm rest (suc (length reads)) d (omega arith) in
    (b, after read _ (read_lem l tm reads) ∙ e)

pub out_lem : (l : Link) (o : Out) → out o l ≡ some (tt, record l { outs = l.outs ++ o ∷ [] })
unfolding out
out_lem l o = refl

tx_lem :
    (l : Link) (i n : ℕ) → i + n ≤ length l.tx_buffer → tx i n l ≡ some (seg l.tx_buffer i n, l)
unfolding tx fetch
tx_lem l i n h = ap (λ o. fetch o l) (load_lem l.tx_buffer i n h)

-- A transfer whose frame and reply, rounded up to words, fit `tx_buffer` and `rx_buffer`, that asks
-- for at least one byte, with a device that delivers the words of the reply within ten seconds of
-- the start of receiving: it sends the first bytes of `tx_buffer`, their number rounded up to words,
-- between two moves of the chip select, and returns true with the reply in `rx_buffer`, whether or
-- not the ready pin came in time.
pub esp32_transfer_lem :
    (l : Link) (tx_len rx_len n : ℕ) (reply rest : List ℕ)
    → round_up4 rx_len ≡ 4 * suc n
    → Exchange reply rest l.reads
    → round_up4 tx_len ≤ length l.tx_buffer
    → Octets reply
    → length reply ≡ 4 * suc n
    → length reply ≤ length l.rx_buffer
    → esp32_transfer tx_len rx_len l ≡ some (true, exchanged l tx_len reply rest)
unfolding esp32_transfer
esp32_transfer_lem l tx_len rx_len n reply rest whole
      (exchange tm tm' start freq waited waited' delivered seen polled polled' d) fits octets len
      room =
    let bs = seg l.tx_buffer 0 (round_up4 tx_len) in
    let l1 = record l { outs = l.outs ++ chip_select 0 ∷ []; reads = start ∷ freq ∷ delivered } in
    let l2 = record l1 { outs = (l1.outs ++ frame bs ∷ []) ++ chip_select 1 ∷ [] } in
    let (b, first) = wait_for_ready_lem l 0 (10 * 1000000) tm waited (tm' ∷ waited') polled in
    let (b', second) =
      wait_for_ready_lem l1 1 1000000 tm' waited' (start ∷ freq ∷ delivered) polled' in
    let some_words : round_up4 rx_len ≢ 0 = λ e. absurd (omega (arith, whole, e)) in
    ap (λ rs. esp32_transfer tx_len rx_len (record l { reads = rs })) seen
    ∙ after (wait_for_ready 0 (10 * 1000000)) _ first
    ∙ after (out (chip_select 0)) _ (out_lem (record l { reads = tm' ∷ waited' }) (chip_select 0))
    ∙ after (wait_for_ready 1 1000000) _ second
    ∙ after (tx 0 (round_up4 tx_len)) _ (tx_lem l1 0 (round_up4 tx_len) (omega arith))
    ∙ after (out (frame bs)) _ (out_lem l1 (frame bs))
    ∙ after (out (chip_select 1)) _
        (out_lem (record l1 { outs = l1.outs ++ frame bs ∷ [] }) (chip_select 1))
    ∙ rw (ne→==_false (round_up4 rx_len) 0 some_words) (
        ap (λ k. spi2_slave_receive4 k (10 * 1000000) l2) whole
        ∙ spi2_slave_receive4_lem l2 (suc n) start freq (10 * 1000000) reply rest delivered
            l.rx_buffer octets len (omega (arith, len)) d
        ∙ ap
            (λ os.
              some
                (true, record l2 { outs = os; rx_buffer = put l.rx_buffer 0 reply; reads = rest }))
            (append_assoc (l.outs ++ chip_select 0 ∷ []) (frame bs ∷ []) (chip_select 1 ∷ [])
              ∙ append_assoc l.outs (chip_select 0 ∷ []) (frame bs ∷ chip_select 1 ∷ [])))
