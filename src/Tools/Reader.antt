-- ===== src/Tools/Reader.antt =====
-- physical/ReadPageMap.c: `read_pagemap`, and what it prints.
use node2x6x2b.Base.{
  ℕ, zero, suc, ◌+◌, ◌-◌, ◌*◌, ◌/◌, ◌%◌, ◌^◌, ◌≤◌, ◌<◌, ◌≡◌, refl, arith, ap, Bool, true, false,
  List, [], ◌∷◌, ◌++◌, bit_and, u64, ◌<<<◌, ◌>>>◌, ◌==◌, if◌then◌else◌, length, update, All,
}
use node2x6x2b.Base.Bits.{bit_and_mask, bit_and_bit}
use native.Mathlib.Nat.{one-mul, mul-div_cancel, one-le-pow}
use node2x6x2b.Pagemap.{little_endian, get_pfn, parse_entry}
use node2x6x2b.Pagemap.Bitfield.{parse_entry-bits}
use node2x6x2b.Tools.Eight.{eight_bytes}
use node2x6x2b.Tools.{Files}

-- `#define PAGEMAP_ENTRY 8`
abbrev pagemap_entry : ℕ
pagemap_entry = 8

-- `#define GET_BIT(X,Y) (X & ((uint64_t)1<<Y)) >> Y`
unfoldable pub get_bit : ℕ → ℕ → ℕ
get_bit x y = bit_and x (1 <<< y) >>> y

-- What is printed, but for the texts around the numbers.
pub data Line : Type 0 where
  big_endian : Bool → Line
  cannot_open failed_seek end_of_file : Line
  vaddr : (virt_addr page_size entry : ℕ) → Line
  reading : ℕ → Line
  byte : (i c : ℕ) → Line
  result result_physical pfn pfn_physical : ℕ → Line
  not_present swapped : Line

-- The lines, the return value, where 1 stands for -1, and whether the stream stays open.
pub record Run : Type 0 where
  pub lines : List Line
  pub failed : ℕ
  pub stays_open : Bool

-- The lines before the result.
abbrev pub prints : List Line → Run → Run
prints lines r = record r { lines = lines ++ r.lines }

-- The lines behind the loops.
unfoldable pub presence : ℕ → ℕ → List Line
presence read_val offset =
    if get_bit read_val 63 == 0
    then Line.not_present ∷ []
    else Line.pfn (get_pfn read_val) ∷ Line.pfn_physical (get_pfn (u64 (read_val + offset))) ∷ []

unfoldable pub conclude : ℕ → ℕ → Run
conclude read_val offset = record {
  lines =
      Line.result read_val
      ∷ Line.result_physical (u64 (read_val + offset))
      ∷ (presence read_val offset ++ (if get_bit read_val 62 == 0 then [] else Line.swapped ∷ []));
  failed = 0;
  stays_open = false;
}

-- `for(i=0; i < PAGEMAP_ENTRY; i++) read_val = (read_val << 8) + c_buf[i];`, with `left` rounds to go
abbrev fold_loop : ℕ → (ℕ → ℕ) → ℕ → ℕ → ℕ
fold_loop zero c_buf i read_val = read_val
fold_loop (suc left) c_buf i read_val =
    fold_loop left c_buf (i + 1) (u64 (u64 (read_val <<< 8) + c_buf i))

-- The loop of `getc`, with `left` rounds to go.
abbrev byte_loop : ℕ → Bool → ℕ → List ℕ → (ℕ → ℕ) → ℕ → Run
byte_loop zero big offset bytes c_buf i = conclude (fold_loop pagemap_entry c_buf 0 0) offset
byte_loop (suc left) big offset [] c_buf i = record {
  lines = Line.end_of_file ∷ [];
  failed = 0;
  stays_open = true;
}
byte_loop (suc left) big offset (c ∷ bytes) c_buf i =
    let c_buf' = if big then update c_buf i c else update c_buf (pagemap_entry - i - 1) c in
    prints (Line.byte i c ∷ []) (byte_loop left big offset bytes c_buf' (i + 1))

-- `big` is `is_bigendian()`, `garbage` what the uninitialised `c_buf` holds.
unfoldable pub read_pagemap : Files → Bool → (ℕ → ℕ) → ℕ → Run
read_pagemap f big garbage virt_addr =
    let file_offset = u64 (virt_addr / f.page_size * pagemap_entry) in
    prints (Line.big_endian big ∷ []) (
      if f.opens
      then (prints (Line.vaddr virt_addr f.page_size pagemap_entry ∷ Line.reading file_offset ∷ [])
          (if f.seeks file_offset
            then byte_loop pagemap_entry big (virt_addr % f.page_size) (f.bytes_at file_offset)
                garbage 0
            else record { lines = Line.failed_seek ∷ []; failed = 1; stays_open = true }))
      else record { lines = Line.cannot_open ∷ []; failed = 1; stays_open = false })

-- A byte more fits, as long as the bytes before it have.
fold_byte : (v c w : ℕ) → v < w → w * 256 ≤ 2 ^ 64 → c < 256 → u64 (u64 (v <<< 8) + c) ≡ v * 256 + c
fold_byte v c w less fits small = omega arith

get_bit-div : (y x : ℕ) → get_bit x y ≡ x / 2 ^ y % 2
unfolding get_bit
get_bit-div y x =
    let single : 1 * 2 ^ y ≡ 2 ^ y = one-mul (2 ^ y) in
    rw (single, bit_and_bit y x) (mul-div_cancel (x / 2 ^ y % 2) (one-le-pow y 2 (omega arith)))

-- What is said of an entry: the word, and the word plus the offset in the page, which is not an address; for a page
-- that is present, the low 55 bits of both; and whether the page is swapped.
abbrev pub described : ℕ → ℕ → List Line
described word offset =
    let e = parse_entry word in
    Line.result word
    ∷ Line.result_physical (u64 (word + offset))
    ∷ ((if e.present == 0
          then Line.not_present ∷ []
          else Line.pfn (word % 2 ^ 55) ∷ Line.pfn_physical (u64 (word + offset) % 2 ^ 55) ∷ [])
        ++ (if e.swapped == 0 then [] else Line.swapped ∷ []))

conclude-described :
    (word offset : ℕ)
    → conclude word offset
      ≡ record { lines = described word offset; failed = 0; stays_open = false }
unfolding conclude presence get_pfn
conclude-described word offset = rw (
  get_bit-div 63 word,
  get_bit-div 62 word,
  parse_entry-bits word,
  bit_and_mask 55 word,
  bit_and_mask 55 (u64 (word + offset)),
)

abbrev pub byte_lines : ℕ → List ℕ → List Line
byte_lines i [] = []
byte_lines i (c ∷ bytes) = Line.byte i c ∷ byte_lines (i + 1) bytes

-- The bytes are stored from the end of `c_buf`, so the last one has the highest weight.
byte_loop-eight :
    (offset : ℕ) (garbage : ℕ → ℕ) (bytes rest : List ℕ)
    → length bytes ≡ 8
    → All (λ b. b < 256) bytes
    → byte_loop 8 false offset (bytes ++ rest) garbage 0
      ≡ prints (byte_lines 0 bytes) (conclude (little_endian bytes) offset)
byte_loop-eight offset garbage bytes rest eight small =
    let (a, b, c, d, e, f, g, h, q) = eight_bytes bytes eight in
    let fits : All (λ (b : ℕ). b < 256) (a ∷ b ∷ c ∷ d ∷ e ∷ f ∷ g ∷ h ∷ []) = rw q at small in
    let (sa, (sb, (sc, (sd, (se, (sf, (sg, (sh, t)))))))) = fits in
    let stored : fold_loop 8
          (update
            (update
              (update (update (update (update (update (update garbage 7 a) 6 b) 5 c) 4 d) 3 e) 2 f)
              1 g)
            0 h)
          0 0
        ≡ little_endian (a ∷ b ∷ c ∷ d ∷ e ∷ f ∷ g ∷ h ∷ []) =
      omega arith in
    rw q (
      ap (λ (w : ℕ). prints (byte_lines 0 (a ∷ b ∷ c ∷ d ∷ e ∷ f ∷ g ∷ h ∷ [])) (conclude w offset))
        stored)

-- The pagemap can be opened and holds the entry of `virt_addr`, before others.
pub record HasEntry (f : Files) (virt_addr : ℕ) (bytes rest : List ℕ) : Type 0 where
  pub opened : f.opens ≡ true
  pub sought : f.seeks (u64 (virt_addr / f.page_size * 8)) ≡ true
  pub read : f.bytes_at (u64 (virt_addr / f.page_size * 8)) ≡ bytes ++ rest

-- On a little-endian machine, and for an entry of 8 bytes: `read_pagemap` prints the bytes, in order, then what there is
-- to say of the word that they make with the first byte lowest, closes the stream and returns 0, whatever `c_buf` held.
pub read_pagemap-entry :
    (f : Files) (garbage : ℕ → ℕ) (virt_addr : ℕ) (bytes rest : List ℕ)
    → HasEntry f virt_addr bytes rest
    → length bytes ≡ 8
    → All (λ b. b < 256) bytes
    → read_pagemap f false garbage virt_addr ≡ record {
      lines =
          Line.big_endian false
          ∷ Line.vaddr virt_addr f.page_size 8
          ∷ Line.reading (u64 (virt_addr / f.page_size * 8))
          ∷ (byte_lines 0 bytes ++ described (little_endian bytes) (virt_addr % f.page_size));
      failed = 0;
      stays_open = false;
    }
unfolding read_pagemap
read_pagemap-entry f garbage virt_addr bytes rest h eight small = rw (
  h.opened,
  h.sought,
  h.read,
  byte_loop-eight (virt_addr % f.page_size) garbage bytes rest eight small,
  conclude-described (little_endian bytes) (virt_addr % f.page_size),
)

-- Where the pagemap ends within the entry, what has been read is printed, the function returns 0 like after a whole
-- entry, and the stream stays open.
byte_loop-short :
    (left : ℕ) (big : Bool) (offset : ℕ) (bytes : List ℕ) (c_buf : ℕ → ℕ) (i : ℕ)
    → length bytes < left
    → byte_loop left big offset bytes c_buf i ≡ record {
      lines = byte_lines i bytes ++ Line.end_of_file ∷ [];
      failed = 0;
      stays_open = true;
    }
byte_loop-short zero big offset bytes c_buf i short = absurd (omega arith)
byte_loop-short (suc left) big offset [] c_buf i short = refl
byte_loop-short (suc left) big offset (c ∷ bytes) c_buf i short =
    rw (byte_loop-short left big offset bytes _ (i + 1) (omega (arith, short)))
