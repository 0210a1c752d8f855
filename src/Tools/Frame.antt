-- ===== src/Tools/Frame.antt =====
-- physical/VtoP.c: the page frame number, and the address that is computed from it in 32 bits.
use node2x6x2b.Base.{
  ℕ, ◌+◌, ◌-◌, ◌*◌, ◌/◌, ◌%◌, ◌^◌, ◌≡◌, arith, ap, Bool, true, List, ◌++◌, bit_and, u32, u64, ◌<<<◌,
  if◌then◌else◌, length, take,
}
use node2x6x2b.Base.Bits.{bit_and_mask}
use node2x6x2b.Pagemap.{little_endian}
use node2x6x2b.Tools.Eight.{eight_bytes}
use node2x6x2b.Tools.{Files}

-- `#define PAGEMAP_LENGTH 8` and `#define PAGE_SHIFT 12`
abbrev pagemap_length : ℕ
pagemap_length = 8

abbrev page_shift : ℕ
page_shift = 12

-- `crashed` is `fseek` on the null pointer that `fopen` has returned, `exited` is `exit(1)`.
pub data Frame : Type 0 where
  crashed exited : Frame
  number : ℕ → Frame

-- `fread` of 7 bytes into a variable that is 0
unfoldable pub get_page_frame_number_of_address : Files → ℕ → Frame
get_page_frame_number_of_address f addr =
    let offset = u64 (addr / f.page_size * pagemap_length) in
    if f.opens
    then (if f.seeks offset
        then Frame.number (
            bit_and (little_endian (take (pagemap_length - 1) (f.bytes_at offset)))
              0x7FFFFFFFFFFFFF)
        else Frame.exited)
    else Frame.crashed

-- `printed` has the page frame and the physical address of the two messages.
pub data Outcome : Type 0 where
  crash exit : Outcome
  printed : (page_frame physical : ℕ) → Outcome

-- `unsigned int page_frame_number`: it is cut to 32 bits, shifted and added to in 32 bits, and widened then.
abbrev pub shown : ℕ → ℕ → Frame → Outcome
shown size buffer Frame.crashed = Outcome.crash
shown size buffer Frame.exited = Outcome.exit
shown size buffer (Frame.number n) =
    let page_frame_number = u32 n in
    let distance_from_page_boundary = u32 (buffer % size) in
    Outcome.printed page_frame_number
      (u32 (u32 (page_frame_number <<< page_shift) + distance_from_page_boundary))

unfoldable pub v_to_p : Files → ℕ → Outcome
v_to_p f buffer = shown f.page_size buffer (get_page_frame_number_of_address f buffer)

-- `locked` says whether `mlock` succeeds. `var=5` sets the pointer, and 5 is the address that is translated.
unfoldable pub main : Files → Bool → Outcome
main f locked = if locked then v_to_p f 5 else Outcome.exit

-- The pages have 4096 bytes, and the pagemap holds the 8 bytes for `addr`, whatever stands behind them.
pub record IsEntry (f : Files) (addr : ℕ) (bytes rest : List ℕ) : Type 0 where
  pub pages : f.page_size ≡ 4096
  pub opened : f.opens ≡ true
  pub sought : f.seeks (u64 (addr / 4096 * 8)) ≡ true
  pub read : f.bytes_at (u64 (addr / 4096 * 8)) ≡ bytes ++ rest
  pub whole : length bytes ≡ 8

-- The seventh byte holds the bits up to 55, so the last byte is of no account.
seven :
    (bytes rest : List ℕ)
    → length bytes ≡ 8
    → little_endian (take 7 (bytes ++ rest)) % 2 ^ 55 ≡ little_endian bytes % 2 ^ 55
seven bytes rest eight =
    let (a, b, c, d, e, f, g, h, q) = eight_bytes bytes eight in rw q (omega arith)

-- For an entry of 8 bytes, whatever stands behind it, and pages of 4096 bytes, `VtoP` prints the frame number modulo 2^32, and as the physical
-- address the remainder of the right one modulo 2^32, whatever the number is.
pub v_to_p-modulo :
    (f : Files) (addr : ℕ) (bytes rest : List ℕ)
    → IsEntry f addr bytes rest
    → let n = little_endian bytes % 2 ^ 55 in
      v_to_p f addr ≡ Outcome.printed (n % 2 ^ 32) ((n * 4096 + addr % 4096) % 2 ^ 32)
unfolding v_to_p get_page_frame_number_of_address
v_to_p-modulo f addr bytes rest h =
    let n = little_endian bytes % 2 ^ 55 in
    let cut : u32 (u32 (u32 n * 2 ^ 12) + u32 (addr % 4096)) ≡ (n * 4096 + addr % 4096) % 2 ^ 32 =
      omega arith in
    rw
      (
        h.pages,
        h.opened,
        h.sought,
        h.read,
        bit_and_mask 55 (little_endian (take 7 (bytes ++ rest))),
        seven bytes rest h.whole,
      )
      (ap (Outcome.printed (n % 2 ^ 32)) cut)
