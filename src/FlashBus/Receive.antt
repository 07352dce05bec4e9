-- ===== src/FlashBus/Receive.antt =====
-- drivers/flash/flash.c: flash_receive_data_enhanced, and how a device feeds it.
use kendryte_k210_base_proje.Prelude.{
  ℕ, zero, suc, ◌-◌, ◌^◌, ◌<◌, min, ◌≡◌, refl, sym, ap, ◌∙◌, Option, none, some, List, [], ◌∷◌,
  ◌++◌, map, append_assoc, append-nil, ltb, if◌then◌else◌, sub32, u8, length, length-append,
  ne→==_false, arith,
}
use kendryte_k210_base_proje.FlashBus.{
  Reg, ctrlr1, ssienr, ser, dr, Flash, M, pure, ◌>>=◌, ◌>>◌, set_reg, with_fuel, get_reg, send_all,
  receive_all, receive_loop, receive_data_enhanced,
}

-- What the device gives to `rx_len` bytes: in each round the level of its FIFO, then as many bytes
-- as the level, but not more than are still wanted.
pub data Feeds : ℕ → List ℕ → List ℕ → Type 0 where
  finished : Feeds 0 [] []
  round :
      {rx_len : ℕ} (level : ℕ) (now : List ℕ) {script later : List ℕ}
      → 0 < rx_len
      → length now ≡ min level rx_len
      → Feeds (rx_len - length now) script later
      → Feeds rx_len (level ∷ now ++ script) (now ++ later)

length-Feeds :
    {rx_len : ℕ} {script bytes : List ℕ} → Feeds rx_len script bytes → length bytes ≡ rx_len
length-Feeds finished = refl
length-Feeds (round {rx_len} level now {script} {later} h e rest) =
    omega (arith, length-append now later, length-Feeds rest, e)

abbrev pub with_reads : Flash → List ℕ → Flash
with_reads f vs = record f { reads = vs }

receive_all_lem :
    (now rest : List ℕ) (f : Flash)
    → receive_all (length now) (with_reads f (now ++ rest)) ≡ some (map u8 now, with_reads f rest)
unfolding receive_all get_reg
receive_all_lem [] rest f = refl
receive_all_lem (b ∷ now) rest f =
    ap (λ r. elim r [ none ↦ none | some (bs, g) ↦ some (u8 b ∷ bs, g) ])
      (receive_all_lem now rest f)

map-append : (g : ℕ → ℕ) (xs ys : List ℕ) → map g (xs ++ ys) ≡ map g xs ++ map g ys
map-append g [] ys = refl
map-append g (x ∷ xs) ys = ap (◌∷◌ (g x)) (map-append g xs ys)

-- one round of the loop
receive_round :
    (fuel rx_len level : ℕ) (now more : List ℕ) (f : Flash)
    → 0 < rx_len
    → rx_len < 2 ^ 32
    → length now ≡ min level rx_len
    → receive_loop (suc fuel) rx_len (with_reads f (level ∷ now ++ more))
      ≡ (elim (receive_loop fuel (rx_len - length now) (with_reads f more)) [
        | none ↦ none
        | some (rest, g) ↦ some (map u8 now ++ rest, g)
      ])
unfolding receive_loop get_reg
receive_round fuel rx_len level now more f h hs e =
    let fifo_len : (if ltb level rx_len then level else rx_len) ≡ length now = ground (arith, e) in
    let left : sub32 rx_len (length now) ≡ rx_len - length now = ground (arith, e) in
    rw (ne→==_false rx_len 0 (omega arith), fifo_len, left)
      (ap
        (λ r. elim r [
          | none ↦ none
          | some (bs, g) ↦ elim (receive_loop fuel (rx_len - length now) g) [
            | none ↦ none
            | some (rest, g') ↦ some (bs ++ rest, g')
          ]
        ])
        (receive_all_lem now more f))

receive_loop_lem :
    (fuel : ℕ) {rx_len : ℕ} {script bytes : List ℕ} (rest : List ℕ) (f : Flash)
    → Feeds rx_len script bytes
    → length script < fuel
    → rx_len < 2 ^ 32
    → receive_loop fuel rx_len (with_reads f (script ++ rest))
      ≡ some (map u8 bytes, with_reads f rest)
unfolding receive_loop
receive_loop_lem zero rest f fed h hs = absurd (omega arith)
receive_loop_lem (suc fuel) rest f finished h hs = refl
receive_loop_lem (suc fuel) rest f (round {rx_len} level now {script} {later} hl e fed) h hs =
    ap (λ vs. receive_loop (suc fuel) rx_len (with_reads f (level ∷ vs)))
      (append_assoc now script rest)
    ∙ receive_round fuel rx_len level now (script ++ rest) f hl hs e
    ∙ ap (λ r. elim r [ none ↦ none | some (bs, g) ↦ some (map u8 now ++ bs, g) ])
        (receive_loop_lem fuel rest f fed (omega (arith, length-append now script)) (omega arith))
    ∙ ap (λ l. some (l, with_reads f rest)) (sym (map-append u8 now later))

-- the register writes of a transfer that receives
abbrev pub receive_writes : List ℕ → ℕ → List (Reg × ℕ)
receive_writes cmd rx_len =
    (ctrlr1, sub32 rx_len 1) ∷ (ssienr, 0x01) ∷ map (λ b. (dr, b)) cmd
    ++ (ser, 0x01) ∷ (ser, 0x00) ∷ (ssienr, 0x00) ∷ []

pub send_all_lem :
    (bs : List ℕ) (f : Flash)
    → send_all bs f ≡ some (tt, record f { writes = f.writes ++ map (λ b. (dr, b)) bs })
unfolding send_all
send_all_lem [] f = ap (λ l. some (tt, record f { writes = l })) (sym (append-nil f.writes))
send_all_lem (b ∷ bs) f =
    send_all_lem bs (record f { writes = f.writes ++ (dr, b) ∷ [] })
    ∙ ap (λ l. some (tt, record f { writes = l }))
        (append_assoc f.writes ((dr, b) ∷ []) (map (λ b. (dr, b)) bs))

abbrev pub after : {A B : Type 0} → (A → M B) → Option (A × Flash) → Option (B × Flash)
after k r = elim r [ none ↦ none | some (a, g) ↦ k a g ]

length-map : (g : ℕ → ℕ) (xs : List ℕ) → length (map g xs) ≡ length xs
length-map g [] = refl
length-map g (x ∷ xs) = ap suc (length-map g xs)

-- `flash_receive_data_enhanced` returns for every device that delivers the bytes: it gives exactly
-- `rx_len` bytes, those that the device delivered and in their order, reads no more than that, and
-- writes the length, the enable, the command and the chip select on and off in this order.
pub receive_data_enhanced_lem :
    {script bytes : List ℕ} (cmd : List ℕ) (rx_len : ℕ) (rest : List ℕ) (f : Flash)
    → Feeds rx_len script bytes
    → rx_len < 2 ^ 32
    → (receive_data_enhanced cmd rx_len (record f { reads = script ++ rest })
        ≡ some (
          map u8 bytes,
          record f { reads = rest; writes = f.writes ++ receive_writes cmd rx_len },
        ))
      × (length (map u8 bytes) ≡ rx_len)
unfolding receive_data_enhanced
receive_data_enhanced_lem {script} {bytes} cmd rx_len rest f fed hs =
    let finish : List ℕ → M (List ℕ) = λ bs. do set_reg ser 0x00; set_reg ssienr 0x00; pure bs
    in let before : List (Reg × ℕ) = f.writes ++ (ctrlr1, sub32 rx_len 1) ∷ (ssienr, 0x01) ∷ [] in
      let middle : List (Reg × ℕ) = before ++ map (λ b. (dr, b)) cmd ++ (ser, 0x01) ∷ [] in
      let start : (f.writes ++ (ctrlr1, sub32 rx_len 1) ∷ []) ++ (ssienr, 0x01) ∷ [] ≡ before =
        append_assoc f.writes ((ctrlr1, sub32 rx_len 1) ∷ []) ((ssienr, 0x01) ∷ []) in
      let begun : Flash = record f { writes = before; reads = script ++ rest } in
      let all : middle ++ (ser, 0x00) ∷ [] ++ (ssienr, 0x00) ∷ []
          ≡ f.writes ++ receive_writes cmd rx_len =
        simp (append_assoc) in
      (
        ap
              (λ l.
                (do
                  send_all cmd
                  set_reg ser 0x01
                  bs ← with_fuel (λ n. receive_loop n rx_len)
                  finish bs)
                  (record f { writes = l; reads = script ++ rest }))
              start
            ∙ ap
                (after (λ u. do
                  set_reg ser 0x01
                  bs ← with_fuel (λ n. receive_loop n rx_len)
                  finish bs))
                (send_all_lem cmd begun)
            ∙ ap (after finish) (
                receive_loop_lem (suc (length (script ++ rest))) rest (record f { writes = middle })
                  fed (omega (arith, length-append script rest)) hs)
            ∙ ap (λ l. some (map u8 bytes, record f { reads = rest; writes = l })) all,
        length-map u8 bytes ∙ length-Feeds fed,
      )
