-- ===== src/BinParse/Inv.antt =====
-- The representation invariant of TBinParse, and its abstract view: the bytes not yet parsed.
use kendryte_k210_base_proje.Prelude.{
  ℕ, ◌+◌, ◌-◌, ◌^◌, ◌≤◌, ◌<◌, ◌≡◌, refl, sym, ap, ◌∙◌, true, List, [], ◌∷◌, ◌++◌, length, arith,
  ◌==◌, lt→ltb, le→ltb_false, ne→==_false, take_all, if◌then◌else◌, add32, some, append_assoc,
  append-nil,
}
use kendryte_k210_base_proje.Bytes.{Octets, All-put, bytes_of}
use kendryte_k210_base_proje.Memory.{seg, put, memcpy_lem, length-seg, length-put}
use kendryte_k210_base_proje.Memory.{seg-put_extend}
use kendryte_k210_base_proje.BinParse.{BinParser, init, fill_header, append, clear}

pub record IsValid (p : BinParser) : Type 0 where
  pub storage : length p.buffer ≡ p.buffer_size
  pub small : p.buffer_size < 2 ^ 31
  pub pos_in : p.buffer_pos ≤ p.buffer_amount
  pub amount_in : p.buffer_amount ≤ p.buffer_size
  pub message_in : p.bin_message_size ≤ p.buffer_size
  pub command_in : p.bin_message_command < 2 ^ 16
  pub octets : Octets p.buffer

-- a message on the wire: what a sender writes with `TBinFillHeader`
unfoldable pub header_bytes : ℕ → ℕ → List ℕ
header_bytes id size = bytes_of 8 (fill_header id size)

unfoldable pub frame : ℕ → List ℕ → List ℕ
frame id payload = header_bytes id (length payload) ++ payload

-- the bytes in the buffer behind the read position
abbrev pub rest : BinParser → List ℕ
rest p = seg p.buffer p.buffer_pos (p.buffer_amount - p.buffer_pos)

-- the header that was taken off the buffer and waits for its data
abbrev pub pending : BinParser → List ℕ
pending p =
    if p.bin_message_size == 0 then [] else header_bytes p.bin_message_command p.bin_message_size

-- all bytes that were appended and are not yet part of a returned message
abbrev pub unread : BinParser → List ℕ
unread p = pending p ++ rest p

pub length-rest : {p : BinParser} → IsValid p → length (rest p) ≡ p.buffer_amount - p.buffer_pos
length-rest {p} v =
    length-seg p.buffer p.buffer_pos (p.buffer_amount - p.buffer_pos)
      (omega (arith, v.storage, v.pos_in, v.amount_in))

-- A parser that the constructor made is valid, and has nothing to parse.
pub init-IsValid :
    (storage : List ℕ) (size : ℕ)
    → length storage ≡ size
    → size < 2 ^ 31
    → Octets storage
    → IsValid (init storage size) × (unread (init storage size) ≡ [])
unfolding init
init-IsValid storage size e h o = (
  record {
    storage = e;
    small = h;
    pos_in = omega arith;
    amount_in = omega arith;
    message_in = omega arith;
    command_in = omega arith;
    octets = o;
  },
  refl,
)

-- the parser with `bytes` put behind the others
abbrev appended : BinParser → List ℕ → BinParser
appended p bytes = record p {
  buffer = put p.buffer p.buffer_amount bytes;
  buffer_amount = p.buffer_amount + length bytes;
}

module _ {p : BinParser} (bytes : List ℕ) (v : IsValid p)
    (h : p.buffer_amount + length bytes ≤ p.buffer_size) where
  appended-IsValid : Octets bytes → IsValid (appended p bytes)
  appended-IsValid o = record {
    storage = length-put p.buffer p.buffer_amount bytes (omega (arith, v.storage)) ∙ v.storage;
    small = v.small;
    pos_in = omega (arith, v.pos_in);
    amount_in = h;
    message_in = v.message_in;
    command_in = v.command_in;
    octets = All-put (λ b. b < 256) p.buffer p.buffer_amount bytes v.octets o;
  }

  rest-appended : rest (appended p bytes) ≡ rest p ++ bytes
  rest-appended =
      let n : ℕ = p.buffer_amount - p.buffer_pos in
      let e : p.buffer_amount + length bytes - p.buffer_pos ≡ n + length bytes =
        omega (arith, v.pos_in) in
      rw e (
        seg-put_extend p.buffer p.buffer_pos n p.buffer_amount bytes (omega (arith, v.pos_in))
          (omega (arith, v.amount_in, v.storage)))

-- In a valid state, `Append` of a block that fits returns without a fault, and puts it behind the
-- bytes not yet parsed.
pub append_lem :
    {p : BinParser} (bytes : List ℕ)
    → IsValid p
    → Octets bytes
    → p.buffer_amount + length bytes ≤ p.buffer_size
    → (q : BinParser) × (append p bytes (length bytes) ≡ some q)
      × IsValid q
      × (unread q ≡ unread p ++ bytes)
      × (q.parse_failed ≡ p.parse_failed)
unfolding append
append_lem {p} [] v o h = (p, refl, v, sym (append-nil (unread p)), refl)
append_lem {p} (b ∷ bs) v o h =
    let bytes : List ℕ = b ∷ bs in
    let sum : add32 p.buffer_amount (length bytes) ≡ p.buffer_amount + length bytes =
      omega (arith, v.small) in
    let copy =
      memcpy_lem p.buffer p.buffer_amount bytes 0 (length bytes) (omega (arith, v.storage))
        (omega arith) in
    (
      appended p bytes,
      rw (
        ne→==_false (length bytes) 0 (omega arith),
        sum,
        le→ltb_false p.buffer_size (p.buffer_amount + length bytes) h,
        copy,
        take_all (length bytes) bytes (omega arith),
      ),
      appended-IsValid bytes v h o,
      ap (λ l. pending p ++ l) (rest-appended bytes v h)
          ∙ sym (append_assoc (pending p) (rest p) bytes),
      refl,
    )

-- In a valid state, `Append` of a block that does not fit into the rest of the buffer (and is no
-- larger than 2 GB) copies nothing, and marks the parser as failed.
append_overflow :
    {p : BinParser} (bytes : List ℕ) (size : ℕ)
    → IsValid p
    → size < 2 ^ 31
    → p.buffer_size < p.buffer_amount + size
    → append p bytes size ≡ some (record p { parse_failed = true })
unfolding append
append_overflow {p} bytes size v k h =
    let sum : add32 p.buffer_amount size ≡ p.buffer_amount + size =
      omega (arith, v.small, v.amount_in) in
    rw (
      ne→==_false size 0 (omega (arith, v.amount_in)),
      sum,
      lt→ltb p.buffer_size (p.buffer_amount + size) h,
    )

-- `Clear` leaves nothing to parse.
unread-clear : {p : BinParser} → IsValid p → IsValid (clear p) × (unread (clear p) ≡ [])
unfolding clear
unread-clear {p} v = (
  record {
    storage = v.storage;
    small = v.small;
    pos_in = omega arith;
    amount_in = omega arith;
    message_in = omega arith;
    command_in = omega arith;
    octets = v.octets;
  },
  refl,
)
