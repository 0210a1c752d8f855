-- ===== src/Tests/Tools.antt =====
-- physical/VtoP.c and physical/ReadPageMap.c on a page of frame 7.
use node2x6x2b.Base.{◌+◌, ◌*◌, ◌/◌, ◌%◌, ◌^◌, ◌≡◌, refl, arith, true, false, [], ◌∷◌, ◌++◌, u64}
use node2x6x2b.Pagemap.{little_endian}
use node2x6x2b.Tools.{Files}
use node2x6x2b.Tools.Frame.{Outcome, v_to_p, v_to_p-modulo}
use node2x6x2b.Tools.Reader.{Line, byte_lines, described, read_pagemap, read_pagemap-entry}
use node2x6x2b.Tests.Scene.{entry_bytes}

abbrev files : Files
files = record {
  page_size = 4096;
  opens = true;
  seeks = λ at. true;
  bytes_at = λ at. entry_bytes ++ 1 ∷ [];
}

v_to_p-modulo_example :
    v_to_p files 8200
    ≡ Outcome.printed
        (little_endian entry_bytes % 2 ^ 55 % 2 ^ 32)
        ((little_endian entry_bytes % 2 ^ 55 * 4096 + 8200 % 4096) % 2 ^ 32)
v_to_p-modulo_example =
    v_to_p-modulo files 8200 entry_bytes (1 ∷ [])
      (record { pages = refl; opened = refl; sought = refl; read = refl; whole = refl })

read_pagemap-entry_example : read_pagemap files false (λ j. 99) 8200 ≡ record {
  lines =
      Line.big_endian false
      ∷ Line.vaddr 8200 4096 8
      ∷ Line.reading (u64 (8200 / 4096 * 8))
      ∷ (byte_lines 0 entry_bytes ++ described (little_endian entry_bytes) (8200 % 4096));
  failed = 0;
  stays_open = false;
}
read_pagemap-entry_example =
    read_pagemap-entry files (λ j. 99) 8200 entry_bytes (1 ∷ [])
      (record { opened = refl; sought = refl; read = refl }) refl
      (
        omega arith,
        (
          omega arith,
          (
            omega arith,
            (omega arith, (omega arith, (omega arith, (omega arith, (omega arith, tt))))),
          ),
        ),
      )
