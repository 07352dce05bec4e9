-- ===== src/Camera/Size.antt =====
-- drivers/camera/gc0328/src/gc0328.c: gc0328_set_framesize and the registers of the sensor.
use kendryte_k210_base_proje.Prelude.{
  ℕ, zero, suc, ◌≡◌, ◌≢◌, refl, sym, ap, ◌∙◌, Bool, true, false, not, none, some, List, [], ◌∷◌,
  ◌==◌, leb, ◌&&◌, get_elem?, drop, u16, if◌then◌else◌, ne→==_false, arith,
}
use kendryte_k210_base_proje.Camera.Bus.{Sdk, Cambus, on_sccb, M, cambus_writeb}
use kendryte_k210_base_proje.Camera.Tables.{qqvga_config, qvga_config, vga_config, resolution}
use kendryte_k210_base_proje.Camera.Gc0328.{write_config, set_size, set_framesize, framesize_qqvga}

-- The sensor as its manual has it: register 0xFE selects a page, and a write with page 0 selected
-- changes that register of page 0 and no other. `peek w` are the registers of page 0.
pub record IsSensor {W : Type 0} (sdk : Sdk W) (page : W → ℕ) (peek : W → ℕ → ℕ) : Type 0 where
  pub select : (w : W) → page (sdk.dvp_sccb_send_data 0x21 0xFE 0 w) ≡ 0
  pub select_keeps : (w : W) (r : ℕ) → peek (sdk.dvp_sccb_send_data 0x21 0xFE 0 w) r ≡ peek w r
  pub write_page :
      (w : W) (reg v : ℕ) → reg ≢ 0xFE → page (sdk.dvp_sccb_send_data 0x21 reg v w) ≡ page w
  pub write :
      (w : W) (reg v r : ℕ)
      → reg ≢ 0xFE
      → page w ≡ 0
      → peek (sdk.dvp_sccb_send_data 0x21 reg v w) r ≡ (if r == reg then v else peek w r)
  pub sleep_page : (w : W) (ms : ℕ) → page (sdk.msleep ms w) ≡ page w
  pub sleep : (w : W) (ms r : ℕ) → peek (sdk.msleep ms w) r ≡ peek w r
  pub image_size :
      (w : W) (width height r : ℕ) → peek (sdk.dvp_set_image_size width height w) r ≡ peek w r

-- The value of register `r` that was `old` before the writes of a table that ends at register 0.
abbrev pub overlay : List (ℕ × ℕ) → ℕ → ℕ → ℕ
overlay [] r old = old
overlay ((reg, v) ∷ regs) r old =
    let later = overlay regs r (if r == reg then v else old) in if reg == 0 then old else later

-- no page select in a table
abbrev one_page : List (ℕ × ℕ) → Bool
one_page [] = true
one_page ((reg, v) ∷ regs) = not (reg == 0xFE) && one_page regs

and_true : (a b : Bool) → (not a && b) ≡ true → (a ≡ false) × (b ≡ true)
and_true true true h = (sym h, refl)
and_true true false h = (sym h, h)
and_true false b h = (refl, h)

one_page-cons :
    (reg v : ℕ) (regs : List (ℕ × ℕ))
    → one_page ((reg, v) ∷ regs) ≡ true
    → (reg ≢ 0xFE) × (one_page regs ≡ true)
one_page-cons reg v regs h =
    let (differs, rest) = and_true (reg == 0xFE) (one_page regs) h in
    (ground (arith, differs), rest)

-- the table of a size
abbrev pub config_of : ℕ → ℕ → ℕ → List (ℕ × ℕ)
config_of framesize w h =
    if framesize == framesize_qqvga
    then qqvga_config
    else if leb w 320 && leb h 240
    then qvga_config
    else vga_config

module _ {W : Type 0} (sdk : Sdk W) (page : W → ℕ) (peek : W → ℕ → ℕ)
    (sensor : IsSensor sdk page peek) where
  -- what a loop over the rest of a table leaves
  abbrev Leaves : List (ℕ × ℕ) → ℕ → ℕ → W → Type 0
  Leaves regs delay width w =
      (w' : W) × (write_config sdk regs (on_sccb delay width w) ≡ (tt, on_sccb delay width w'))
      × ((r : ℕ) → r ≢ 0xFE → peek w' r ≡ overlay regs r (peek w r))

  write_config_round :
      (reg v : ℕ) (regs : List (ℕ × ℕ)) (delay width : ℕ) (w : W)
      → reg ≢ 0
      → write_config sdk ((reg, v) ∷ regs) (on_sccb delay width w)
        ≡ write_config sdk regs
            (on_sccb delay width (sdk.msleep delay (sdk.dvp_sccb_send_data 0x21 reg v w)))
  unfolding write_config cambus_writeb
  write_config_round reg v regs delay width w h = rw (ne→==_false reg 0 h)

  overlay_round :
      (reg v : ℕ) (regs : List (ℕ × ℕ)) (r old : ℕ)
      → reg ≢ 0
      → overlay ((reg, v) ∷ regs) r old ≡ overlay regs r (if r == reg then v else old)
  overlay_round reg v regs r old h = rw (ne→==_false reg 0 h)

  write_config_lem :
      (regs : List (ℕ × ℕ)) (delay width : ℕ) (w : W)
      → one_page regs ≡ true
      → page w ≡ 0
      → Leaves regs delay width w
  unfolding write_config
  write_config_lem [] delay width w h hp = (w, refl, λ r hr. refl)
  write_config_lem ((zero, v) ∷ regs) delay width w h hp = (w, refl, λ r hr. refl)
  write_config_lem ((suc reg, v) ∷ regs) delay width w h hp =
      let (differs, hs) = one_page-cons (suc reg) v regs h in
      let nonzero : suc reg ≢ 0 = omega arith in
      let sent : W = sdk.dvp_sccb_send_data 0x21 (suc reg) v w in
      let next : W = sdk.msleep delay sent in
      let here : (r : ℕ) → peek next r ≡ (if r == suc reg then v else peek w r) =
        λ r. sensor.sleep sent delay r ∙ sensor.write w (suc reg) v r differs hp in
      let (w', runs, left) =
        write_config_lem regs delay width next hs
          (sensor.sleep_page sent delay ∙ sensor.write_page w (suc reg) v differs ∙ hp) in
      (
        w',
        write_config_round (suc reg) v regs delay width w nonzero ∙ runs,
        λ r hr.
            left r hr
            ∙ ap (overlay regs r) (here r)
            ∙ sym (overlay_round (suc reg) v regs r (peek w r) nonzero),
      )

  -- a table that begins with the select of page 0
  selected_lem :
      (regs : List (ℕ × ℕ)) (delay width : ℕ) (w : W)
      → one_page regs ≡ true
      → Leaves ((0xFE, 0) ∷ regs) delay width w
  selected_lem regs delay width w h =
      let sent : W = sdk.dvp_sccb_send_data 0x21 0xFE 0 w in
      let next : W = sdk.msleep delay sent in
      let here : (r : ℕ) → peek next r ≡ peek w r =
        λ r. sensor.sleep sent delay r ∙ sensor.select_keeps w r in
      let other : (r : ℕ) → r ≢ 0xFE → (if r == 0xFE then 0 else peek w r) ≡ peek w r =
        λ r hr. rw (ne→==_false r 0xFE hr) in
      let (w', runs, left) =
        write_config_lem regs delay width next h (sensor.sleep_page sent delay ∙ sensor.select w) in
      (
        w',
        write_config_round 0xFE 0 regs delay width w (omega arith) ∙ runs,
        λ r hr. left r hr ∙ ap (overlay regs r) (here r ∙ sym (other r hr)),
      )

  -- one of the three tables
  configured :
      (a b : Bool) (delay width : ℕ) (w : W)
      → Leaves (if a then qqvga_config else if b then qvga_config else vga_config) delay width w
  configured true b delay width w = selected_lem (drop 1 qqvga_config) delay width w refl
  configured false true delay width w = selected_lem (drop 1 qvga_config) delay width w refl
  configured false false delay width w = selected_lem (drop 1 vga_config) delay width w refl

-- what a call of gc0328_set_framesize leaves: the registers of page 0 under the table of the size
abbrev pub Sets : {W : Type 0} → Sdk W → (W → ℕ → ℕ) → ℕ → List (ℕ × ℕ) → ℕ → ℕ → W → W → Type 0
Sets sdk peek framesize regs delay width world world' =
    (m : M _ ℕ) × (set_framesize sdk framesize ≡ some m)
    × (m (on_sccb delay width world) ≡ (0, on_sccb delay width world'))
    × ((r : ℕ) → r ≢ 0xFE → peek world' r ≡ overlay regs r (peek world r))

-- `gc0328_set_framesize` of a size in the table, with the sensor on SCCB, returns 0 and leaves in
-- every register of page 0 the last value that the table of that size (for QQVGA its own, for other
-- sizes up to 320 by 240 that of QVGA, else that of VGA) has for it, and the register as it was
-- where the table does not name it.
pub set_framesize_lem :
    {W : Type 0} (sdk : Sdk W) (page : W → ℕ) (peek : W → ℕ → ℕ) (framesize w h delay width : ℕ)
    (world : W)
    → IsSensor sdk page peek
    → get_elem? resolution framesize ≡ some (w, h)
    → (world' : W) × Sets sdk peek framesize
        (config_of framesize (u16 w) (u16 h))
        delay
        width
        world
        world'
unfolding set_framesize
set_framesize_lem {W} sdk page peek framesize w h delay width world sensor found =
    let (world', runs, left) =
      configured sdk page peek sensor (framesize == 9) (leb (u16 w) 320 && leb (u16 h) 240) delay
        width world in
    let slept : W = sdk.msleep 30 world' in
    let after : Cambus W → Cambus W =
      λ c. record c { world = sdk.dvp_set_image_size (u16 w) (u16 h) (sdk.msleep 30 c.world) } in
    (
      sdk.dvp_set_image_size (u16 w) (u16 h) slept,
      (
        set_size sdk framesize (w, h),
        ap (λ o. elim o [ none ↦ none | some size ↦ some (set_size sdk framesize size) ]) found,
        ap (λ (z : Unit × Cambus W). (0, after z.1)) runs,
        λ r hr. sensor.image_size slept (u16 w) (u16 h) r ∙ sensor.sleep world' 30 r ∙ left r hr,
      ),
    )

-- QVGA set after QQVGA leaves the crop window of QQVGA, 160 by 120 pixels, in the registers 0x56
-- and 0x58 of the sensor, whatever it held before.
pub stale_window :
    {W : Type 0} (sdk : Sdk W) (page : W → ℕ) (peek : W → ℕ → ℕ) (delay width : ℕ) (world : W)
    → IsSensor sdk page peek
    → (world1 world2 : W) × Sets sdk peek 9 qqvga_config delay width world world1
      × Sets sdk peek 10 qvga_config delay width world1 world2
      × (peek world2 0x56 ≡ 120)
      × (peek world2 0x58 ≡ 160)
stale_window sdk page peek delay width world sensor =
    let (world1, first) = set_framesize_lem sdk page peek 9 160 120 delay width world sensor refl in
    let (world2, second) =
      set_framesize_lem sdk page peek 10 320 240 delay width world1 sensor refl in
    (
      world1,
      world2,
      first,
      second,
      second.3 0x56 (omega arith) ∙ first.3 0x56 (omega arith),
      second.3 0x58 (omega arith) ∙ first.3 0x58 (omega arith),
    )
