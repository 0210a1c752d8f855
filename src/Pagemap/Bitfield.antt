-- ===== src/Pagemap/Bitfield.antt =====
-- Which bits of a pagemap word the fields of an entry are.
use node2x6x2b.Base.{ℕ, ◌+◌, ◌*◌, ◌/◌, ◌%◌, ◌^◌, ◌<◌, ◌≡◌, arith}
use node2x6x2b.Base.Bits.{bit_and_mask}
use node2x6x2b.Pagemap.{parse_entry, get_pfn}

pub parse_entry-bits :
    (word : ℕ)
    → parse_entry word ≡ record {
      pfn = word % 2 ^ 54;
      soft_dirty = word / 2 ^ 54 % 2;
      file_page = word / 2 ^ 61 % 2;
      swapped = word / 2 ^ 62 % 2;
      present = word / 2 ^ 63 % 2;
    }
unfolding parse_entry
parse_entry-bits word = rw (
  bit_and_mask 54 word,
  bit_and_mask 1 (word / 2 ^ 54),
  bit_and_mask 1 (word / 2 ^ 61),
  bit_and_mask 1 (word / 2 ^ 62),
  bit_and_mask 1 (word / 2 ^ 63),
)

-- An entry and the six bits 55 to 60, which it leaves out, give the word back.
parse_entry_lossless :
    (word : ℕ)
    → word < 2 ^ 64
    → let e = parse_entry word in
      e.pfn
        + e.soft_dirty * 2 ^ 54
        + word / 2 ^ 55 % 2 ^ 6 * 2 ^ 55
        + e.file_page * 2 ^ 61
        + e.swapped * 2 ^ 62
        + e.present * 2 ^ 63
      ≡ word
parse_entry_lossless word h = rw (parse_entry-bits word) (omega arith)

-- The macro `GET_PFN` keeps one bit more than the field `pfn`: the one that is parsed as `soft_dirty`.
get_pfn-parse_entry :
    (word : ℕ) → get_pfn word ≡ (parse_entry word).pfn + (parse_entry word).soft_dirty * 2 ^ 54
unfolding get_pfn
get_pfn-parse_entry word = rw (parse_entry-bits word, bit_and_mask 55 word) (omega arith)
