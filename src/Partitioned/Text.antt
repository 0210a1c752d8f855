-- ===== src/Partitioned/Text.antt =====
-- perf2_new.c: `typeTID` and `typeAddr`.
pub mod Numbers
use node2x6x2b.Base.{
  ℕ, ◌+◌, ◌-◌, ◌*◌, ◌^◌, ◌&&◌, List, [], ◌∷◌, u32, u64, ltb, leb, if◌then◌else◌, drop,
}

-- `(int)c` of a signed `char`, for numbers below `size`: the bytes from 128 on are negative.
unfoldable pub char_value : ℕ → ℕ → ℕ
char_value size c = if ltb c 128 then c else c + (size - 256)

-- `for(i=0;i<strlen(cTID);i++) p=p*10+((int)cTID[i]-48);`, for the characters that are left; an `int` is its
-- 32-bit pattern.
unfoldable pub tid_loop : ℕ → List ℕ → ℕ
tid_loop p [] = p
tid_loop p (c ∷ cs) = tid_loop (u32 (p * 10 + char_value (2 ^ 32) c + 2 ^ 32 - 48)) cs

unfoldable pub type_tid : List ℕ → ℕ
type_tid c_tid = tid_loop 0 c_tid

-- The three branches on a character; a `long` is its 64-bit pattern. A negative `char` is neither a digit nor a
-- small letter.
unfoldable pub addr_step : ℕ → ℕ → ℕ
addr_step addr c =
    let value = char_value (2 ^ 64) c in
    if leb b'0' c && leb c b'9'
    then u64 (addr * 10 + value + 2 ^ 64 - 48)
    else (if leb b'a' c && leb c b'z'
        then u64 (addr * 10 + value + 10 + 2 ^ 64 - 97)
        else u64 (addr * 10 + value + 10 + 2 ^ 64 - 65))

unfoldable pub addr_loop : ℕ → List ℕ → ℕ
addr_loop addr [] = addr
addr_loop addr (c ∷ cs) = addr_loop (addr_step addr c) cs

-- The loop starts at `i=2`, behind the `0x`.
unfoldable pub type_addr : List ℕ → ℕ
type_addr c_addr = addr_loop 0 (drop 2 c_addr)
