-- ===== src/Tools.antt =====
-- physical/VtoP.c and physical/ReadPageMap.c, which read an entry of the pagemap with `fread` and with `getc`.
pub mod Eight
pub mod Frame
pub mod Reader
use node2x6x2b.Base.{ℕ, Bool, List}

-- What the C library answers: `getpagesize()`, whether `fopen` of the pagemap gives a stream, whether `fseek` to an
-- offset succeeds, and the bytes that the stream then yields before its end.
pub record Files : Type 0 where
  pub page_size : ℕ
  pub opens : Bool
  pub seeks : ℕ → Bool
  pub bytes_at : ℕ → List ℕ
