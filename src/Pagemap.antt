-- ===== src/Pagemap.antt =====
-- hardcore_new6.c, "virtual to physical": `PagemapEntry`, `pagemap_get_entry` and `virt_to_phys_user`.
-- The kernel is a parameter: what `sysconf(_SC_PAGE_SIZE)`, `open` of a process's pagemap and `pread`
-- answer. The bytes of a `uint64_t` lie lowest first.
pub mod Bitfield
pub mod Reading
pub mod Translation
use node2x6x2b.Base.{
  ℕ, zero, suc, ◌+◌, ◌-◌, ◌*◌, ◌/◌, ◌%◌, ◌^◌, Option, none, some, List, [], ◌∷◌, bit_and, u64,
  ◌>>>◌, ltb, ◌==◌, if◌then◌else◌, length,
}

pub record Kernel : Type 0 where
  pub page_size : ℕ
  -- the descriptor of `/proc/<pid>/pagemap`; `none` where `open` returns a negative number
  pub open_pagemap : ℕ → Option ℕ
  -- the bytes that `pread` of 8 bytes from a descriptor at an offset stores, at most 8 of them;
  -- none at the end of the file and on an error, where its result is 0 or negative
  pub pread : ℕ → ℕ → List ℕ

pub record PagemapEntry : Type 0 where
  pub pfn : ℕ
  pub soft_dirty : ℕ
  pub file_page : ℕ
  pub swapped : ℕ
  pub present : ℕ

-- `#define GET_PFN(X) X & 0x7FFFFFFFFFFFFF`
unfoldable pub get_pfn : ℕ → ℕ
get_pfn x = bit_and x 0x7FFFFFFFFFFFFF

-- The assignments to the fields of `*entry`.
unfoldable pub parse_entry : ℕ → PagemapEntry
parse_entry word = record {
  pfn = bit_and word (2 ^ 54 - 1);
  soft_dirty = bit_and (word >>> 54) 1;
  file_page = bit_and (word >>> 61) 1;
  swapped = bit_and (word >>> 62) 1;
  present = bit_and (word >>> 63) 1;
}

abbrev pub little_endian : List ℕ → ℕ
little_endian [] = 0
little_endian (b ∷ bs) = b + little_endian bs * 2 ^ 8

-- `pread` stores at `&data`, whatever was read before: the bytes behind those stay.
unfoldable pub store_at_start : List ℕ → ℕ → ℕ
store_at_start bytes word =
    let width = 8 * length bytes in little_endian bytes + word / 2 ^ width * 2 ^ width

-- `failure` is the return value 1; `unfinished` never comes out, given 9 rounds.
pub data ReadResult : Type 0 where
  success : ℕ → ReadResult
  failure unfinished : ReadResult

-- `while (nread < sizeof(data))`
unfoldable pub read_loop : ℕ → Kernel → ℕ → ℕ → ℕ → ℕ → ReadResult
read_loop zero k fd vaddr nread word = unfinished
read_loop (suc rounds) k fd vaddr nread word =
    let bytes = k.pread fd (u64 (vaddr / k.page_size * 8 + nread)) in
    let rest = read_loop rounds k fd vaddr (nread + length bytes) (store_at_start bytes word) in
    if ltb nread 8 then (if length bytes == 0 then failure else rest) else success word

-- What the function leaves in `*entry` and returns; `none` is the return value 1.
abbrev pub parsed : ReadResult → Option PagemapEntry
parsed (success word) = some (parse_entry word)
parsed failure = none
parsed unfinished = none

-- `uninit` is what the uninitialised `data` holds. Each round that goes on reads a byte at least, so
-- 9 rounds are enough.
unfoldable pub pagemap_get_entry : Kernel → ℕ → ℕ → ℕ → Option PagemapEntry
pagemap_get_entry k uninit fd vaddr = parsed (read_loop 9 k fd vaddr 0 uninit)

-- The returned address, and how many descriptors the process then holds open.
pub record Translated : Type 0 where
  pub paddr : ℕ
  pub fds : ℕ

-- After `pagemap_get_entry`: a failure returns at once, with the descriptor open.
abbrev translate : Kernel → ℕ → ℕ → Option PagemapEntry → Translated
translate k fds vaddr none = record { paddr = 1; fds = fds }
translate k fds vaddr (some entry) = record {
  paddr = u64 (u64 (entry.pfn * k.page_size) + vaddr % k.page_size);
  fds = fds - 1;
}

-- After `open`.
abbrev look_up : Kernel → ℕ → ℕ → ℕ → Option ℕ → Translated
look_up k uninit fds vaddr none = record { paddr = 1; fds = fds }
look_up k uninit fds vaddr (some fd) =
    translate k (fds + 1) vaddr (pagemap_get_entry k uninit fd vaddr)

unfoldable pub virt_to_phys_user : Kernel → ℕ → ℕ → ℕ → ℕ → Translated
virt_to_phys_user k uninit fds pid vaddr = look_up k uninit fds vaddr (k.open_pagemap pid)
