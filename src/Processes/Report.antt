-- ===== src/Processes/Report.antt =====
-- The physical addresses of the rows of `ar` that both programs print, and the variant of `virt_to_phys_user` that they
-- have: it returns a status, and leaves the address in `*paddr`. `pagemap_get_entry` is as in hardcore_new6.c.
use node2x6x2b.Base.{
  ℕ, ◌+◌, ◌-◌, ◌*◌, ◌/◌, ◌%◌, ◌^◌, ◌≤◌, ◌<◌, ◌≡◌, arith, ap, ◌∙◌, Bool, true, false, Option, none,
  some, List, [], ◌∷◌, u64, ◌==◌, if◌then◌else◌, length,
}
use native.Mathlib.Nat.{mul-add-div_right, mul-add-mod_self_right, div-eq_of_lt, mod-eq_of_lt}
use node2x6x2b.Pagemap.{Kernel, PagemapEntry, little_endian, pagemap_get_entry}
use node2x6x2b.Pagemap.Bitfield.{parse_entry-bits}
use node2x6x2b.Pagemap.Reading.{chunk, pagemap_get_entry-whole, pagemap_get_entry-fails}

-- The status, `*paddr`, and how many descriptors are open.
pub record Answer : Type 0 where
  pub status : ℕ
  pub paddr : ℕ
  pub fds : ℕ

-- After `pagemap_get_entry`: a failure returns at once, with the descriptor open.
abbrev convert : Kernel → ℕ → ℕ → ℕ → Option PagemapEntry → Answer
convert k fds paddr vaddr none = record { status = 1; paddr = paddr; fds = fds }
convert k fds paddr vaddr (some entry) = record {
  status = 0;
  paddr = u64 (u64 (entry.pfn * k.page_size) + vaddr % k.page_size);
  fds = fds - 1;
}

-- After `open`.
abbrev pub opened : Kernel → ℕ → ℕ → ℕ → ℕ → Option ℕ → Answer
opened k uninit fds paddr vaddr none = record { status = 1; paddr = paddr; fds = fds }
opened k uninit fds paddr vaddr (some fd) =
    convert k (fds + 1) paddr vaddr (pagemap_get_entry k uninit fd vaddr)

unfoldable pub virt_to_phys_user : Kernel → ℕ → ℕ → ℕ → ℕ → ℕ → Answer
virt_to_phys_user k uninit fds paddr pid vaddr =
    opened k uninit fds paddr vaddr (k.open_pagemap pid)

-- What is printed, whether `main` goes on, and how many descriptors are open.
pub record Report : Type 0 where
  pub printed : List ℕ
  pub found : Bool
  pub fds : ℕ

-- The calls for the rows of a list, each of which has 64 bytes. The first failure is `return EXIT_FAILURE`, and
-- `paddr` is read only behind a call that has set it.
unfoldable pub report_rows : Kernel → ℕ → ℕ → ℕ → ℕ → List ℕ → Report
report_rows k uninit fds pid base [] = record { printed = []; found = true; fds = fds }
report_rows k uninit fds pid base (j ∷ js) =
    let a = virt_to_phys_user k uninit fds 0 pid (base + j * 64) in
    let rest = report_rows k uninit a.fds pid base js in
    if a.status == 0
    then record rest { printed = a.paddr ∷ rest.printed }
    else record { printed = []; found = false; fds = a.fds }

unfoldable pub report : Kernel → ℕ → ℕ → ℕ → ℕ → Report
report k uninit fds pid base = report_rows k uninit fds pid base (0 ∷ 1 ∷ 2 ∷ 3 ∷ [])

-- The page `page` of process `pid` is mapped, and holds all rows.
pub record IsHeld (k : Kernel) (pid fd page : ℕ) (bytes : List ℕ) : Type 0 where
  pub gives : k.open_pagemap pid ≡ some fd
  pub reads : k.pread fd (u64 (page * 8 + 0)) ≡ bytes
  pub whole : length bytes ≡ 8
  pub large : 256 ≤ k.page_size

module _ (k : Kernel) (uninit fds pid fd page : ℕ) (bytes : List ℕ) where
  virt_to_phys_user-row :
      (paddr r : ℕ)
      → uninit < 2 ^ 64
      → IsHeld k pid fd page bytes
      → r < 256
      → virt_to_phys_user k uninit fds paddr pid (page * k.page_size + r) ≡ record {
        status = 0;
        paddr = u64 (u64 (little_endian bytes % 2 ^ 54 * k.page_size) + r);
        fds = fds;
      }
  unfolding virt_to_phys_user
  virt_to_phys_user-row paddr r small h few =
      let size = k.page_size in
      let inside : r < size = omega (arith, h.large) in
      let pos : 0 < size = omega arith in
      let quotient : (page * size + r) / size ≡ page =
        mul-add-div_right pos page r
        ∙ ap (λ (t : ℕ). page + t) (div-eq_of_lt inside)
        ∙ omega arith in
      let offset : (page * size + r) % size ≡ r =
        mul-add-mod_self_right page size r ∙ mod-eq_of_lt inside in
      let first : chunk k uninit fd (page * size + r) 0 ≡ bytes =
        ap (λ (t : ℕ). k.pread fd (u64 (t * 8 + 0))) quotient ∙ h.reads in
      let back : fds + 1 - 1 ≡ fds = omega arith in
      rw (
        h.gives,
        pagemap_get_entry-whole k uninit fd (page * size + r) bytes small first h.whole,
        parse_entry-bits (little_endian bytes),
        offset,
        back,
      )

  -- If the segment is at the start of a mapped page of at least 256 bytes, the programs print the address of the page
  -- frame and those that are 64, 128 and 192 bytes behind it, in 64 bits: each row has a cache line of its own. Then
  -- they go on, with all descriptors closed.
  pub report-rows :
      uninit < 2 ^ 64
      → IsHeld k pid fd page bytes
      → let frame = u64 (little_endian bytes % 2 ^ 54 * k.page_size) in
        report k uninit fds pid (page * k.page_size) ≡ record {
          printed = u64 (frame + 0) ∷ u64 (frame + 64) ∷ u64 (frame + 128) ∷ u64 (frame + 192) ∷ [];
          found = true;
          fds = fds;
        }
  unfolding report report_rows
  report-rows small h = rw (
    virt_to_phys_user-row 0 0 small h (omega arith),
    virt_to_phys_user-row 0 64 small h (omega arith),
    virt_to_phys_user-row 0 128 small h (omega arith),
    virt_to_phys_user-row 0 192 small h (omega arith),
  )

  -- Where the pagemap cannot be read, the programs end with `EXIT_FAILURE` before they print an address, and with one
  -- more descriptor open.
  pub report-fails :
      k.open_pagemap pid ≡ some fd
      → chunk k uninit fd (page * k.page_size + 0) 0 ≡ []
      → report k uninit fds pid (page * k.page_size)
        ≡ record { printed = []; found = false; fds = fds + 1 }
  unfolding report report_rows virt_to_phys_user
  report-fails gives empty =
      rw (gives, pagemap_get_entry-fails k uninit fd (page * k.page_size + 0) empty)
