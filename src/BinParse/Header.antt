-- ===== src/BinParse/Header.antt =====
-- The eight-byte header: TBinFillHeader against TBinParse::ParseHeader.
use kendryte_k210_base_proje.Prelude.{
  ℕ, ◌+◌, ◌*◌, ◌%◌, ◌^◌, ◌<◌, ◌≡◌, ◌↔◌, refl, true, false, arith, ==_iff, u16, u32, shr, bit_xor,
}
use kendryte_k210_base_proje.Bits.{bit_or-shift, bit_xor-lt}
use kendryte_k210_base_proje.BinParse.{BinParser, header_crc, fill_header, parse_header}

-- the fields of a header
abbrev pub size_field : ℕ → ℕ
size_field h = u32 h

abbrev pub id_field : ℕ → ℕ
id_field h = u16 (shr h 32)

abbrev pub crc_field : ℕ → ℕ
crc_field h = u16 (shr h 48)

header_crc-lt : (id size : ℕ) → id < 2 ^ 16 → header_crc id size < 2 ^ 16
header_crc-lt id size h =
    bit_xor-lt 16 (bit_xor (bit_xor 0xFFFF (size % 2 ^ 16)) (shr size 16 % 2 ^ 16)) id
      (bit_xor-lt 16 (bit_xor 0xFFFF (size % 2 ^ 16)) (shr size 16 % 2 ^ 16)
        (bit_xor-lt 16 0xFFFF (size % 2 ^ 16) (omega arith) (omega arith)) (omega arith))
      h

-- The three fields do not overlap.
fill_header-sum :
    (id size : ℕ)
    → id < 2 ^ 16
    → size < 2 ^ 32
    → fill_header id size ≡ size + id * 2 ^ 32 + header_crc id size * 2 ^ 48
unfolding fill_header
fill_header-sum id size h k = rw (
  bit_or-shift 32 size id k,
  bit_or-shift 48 (size + id * 2 ^ 32) (header_crc id size) (omega arith),
)

pub fill_header-fields :
    (id size : ℕ)
    → id < 2 ^ 16
    → size < 2 ^ 32
    → (size_field (fill_header id size) ≡ size)
      × (id_field (fill_header id size) ≡ id)
      × (crc_field (fill_header id size) ≡ header_crc id size)
      × (fill_header id size < 2 ^ 64)
fill_header-fields id size h k = rw fill_header-sum (omega (arith, header_crc-lt id size h))

-- the state that an accepted header leaves
abbrev pub announced : BinParser → ℕ → ℕ → BinParser
announced p id size = record p { bin_message_size = size; bin_message_command = id }

-- Every header that `TBinFillHeader` writes is accepted by `ParseHeader`, which gets back its size
-- and command.
pub parse_header-fill_header :
    (p : BinParser) (id size : ℕ)
    → id < 2 ^ 16
    → size < 2 ^ 32
    → parse_header p (fill_header id size) ≡ (true, announced p id size)
unfolding parse_header
parse_header-fill_header p id size h k =
    let (s, i, c, _) = fill_header-fields id size h k in
    let same : u16 (header_crc id size) ≡ header_crc id size =
      omega (arith, header_crc-lt id size h) in
    rw (s, i, c, same, (==_iff (header_crc id size) (header_crc id size)).1 refl)

-- An accepted header is the one that `TBinFillHeader` writes for its fields.
pub parse_header_sound :
    (p : BinParser) (header : ℕ)
    → header < 2 ^ 64
    → (parse_header p header).0 ≡ true
    → (header ≡ fill_header (id_field header) (size_field header))
      × (parse_header p header ≡ (true, announced p (id_field header) (size_field header)))
unfolding parse_header
parse_header_sound p header h ok =
    let id : ℕ = id_field header in
    let size : ℕ = size_field header in
    let crc = header_crc-lt id size (omega arith) in
    let same : u16 (header_crc id size) ≡ crc_field header = ground arith in
    let sum = fill_header-sum id size (omega arith) (omega arith) in
    (
      omega (arith, sum, crc, same),
      rw ((==_iff (u16 (header_crc id size)) (crc_field header)).1 same),
    )

-- A 64-bit header is accepted exactly when `TBinFillHeader` writes it, for some command and size.
pub parse_header_iff :
    (p : BinParser) (header : ℕ)
    → header < 2 ^ 64
    → ((parse_header p header).0 ≡ true)
      ↔ ((id : ℕ) × (size : ℕ) × (id < 2 ^ 16) × (size < 2 ^ 32) × (header ≡ fill_header id size))
parse_header_iff p header h = (
  λ ok. (
    id_field header,
    size_field header,
    omega arith,
    omega arith,
    (parse_header_sound p header h ok).0,
  ),
  λ (id, size, hi, hs, e). rw (e, parse_header-fill_header p id size hi hs),
)

-- What a rejected header leaves.
pub parse_header_rejects :
    (p : BinParser) (header : ℕ)
    → (parse_header p header).0 ≡ false
    → parse_header p header ≡ (false, announced p 0 0)
unfolding parse_header
parse_header_rejects p header bad = ground arith
