-- ===== src/Pagemap/Translation.antt =====
-- `virt_to_phys_user`: the address that it returns, and the descriptors that it leaves open.
use node2x6x2b.Base.{
  ℕ, ◌+◌, ◌-◌, ◌*◌, ◌%◌, ◌^◌, ◌<◌, ◌≡◌, sym, ap, ◌∙◌, arith, none, some, List, [], u64, length,
}
use node2x6x2b.Pagemap.{Kernel, little_endian, virt_to_phys_user}
use node2x6x2b.Pagemap.Bitfield.{parse_entry-bits}
use node2x6x2b.Pagemap.Reading.{chunk, pagemap_get_entry-whole, pagemap_get_entry-fails}
use mathlib.Core.Path.{◌≡⟨◌⟩◌, ◌∎}
use native.Mathlib.Nat.{mod-mod_of_dvd, dvd_of_mod-eq-zero, mod-mod, mod-add-mod, mul-mod_left}

-- The kernel lets process `pid` be inspected, and its pagemap holds the 8 bytes for `vaddr`.
pub record IsMapped (k : Kernel) (pid vaddr fd : ℕ) (bytes : List ℕ) : Type 0 where
  pub opened : k.open_pagemap pid ≡ some fd
  pub read : chunk k 0 fd vaddr 0 ≡ bytes
  pub whole : length bytes ≡ 8

-- For a mapped address the result is the page frame number times the page size plus the offset in the
-- page, in 64 bits, and the descriptor is closed.
pub virt_to_phys_user-mapped :
    (k : Kernel) (uninit fds pid vaddr : ℕ) {fd : ℕ} {bytes : List ℕ}
    → uninit < 2 ^ 64
    → IsMapped k pid vaddr fd bytes
    → virt_to_phys_user k uninit fds pid vaddr ≡ record {
      paddr = u64 (u64 (little_endian bytes % 2 ^ 54 * k.page_size) + vaddr % k.page_size);
      fds = fds;
    }
unfolding virt_to_phys_user
virt_to_phys_user-mapped k uninit fds pid vaddr {fd} {bytes} small m =
    let back : fds + 1 - 1 ≡ fds = omega arith in
    rw (
      m.opened,
      pagemap_get_entry-whole k uninit fd vaddr bytes small m.read m.whole,
      parse_entry-bits (little_endian bytes),
      back,
    )

-- Where `open` fails the result is 1, which is also an address, and as many descriptors are open as
-- before.
virt_to_phys_user-unopened :
    (k : Kernel) (uninit fds pid vaddr : ℕ)
    → k.open_pagemap pid ≡ none
    → virt_to_phys_user k uninit fds pid vaddr ≡ record { paddr = 1; fds = fds }
unfolding virt_to_phys_user
virt_to_phys_user-unopened k uninit fds pid vaddr closed = rw closed

-- Where the first read stores nothing the result is 1 too, and one more descriptor stays open.
virt_to_phys_user-unread :
    (k : Kernel) (uninit fds pid vaddr : ℕ) {fd : ℕ}
    → k.open_pagemap pid ≡ some fd
    → chunk k uninit fd vaddr 0 ≡ []
    → virt_to_phys_user k uninit fds pid vaddr ≡ record { paddr = 1; fds = fds + 1 }
unfolding virt_to_phys_user
virt_to_phys_user-unread k uninit fds pid vaddr {fd} opened empty =
    rw (opened, pagemap_get_entry-fails k uninit fd vaddr empty)

-- Translation of a mapped address keeps the offset in the page, if the page size divides the range of addresses.
virt_to_phys_user_offset :
    (k : Kernel) (uninit fds pid vaddr : ℕ) {fd : ℕ} {bytes : List ℕ}
    → uninit < 2 ^ 64
    → 0 < k.page_size
    → (2 ^ 64) % k.page_size ≡ 0
    → IsMapped k pid vaddr fd bytes
    → (virt_to_phys_user k uninit fds pid vaddr).paddr % k.page_size ≡ vaddr % k.page_size
virt_to_phys_user_offset k uninit fds pid vaddr {fd} {bytes} small pos divides m =
    let size = k.page_size in
    let base = little_endian bytes % 2 ^ 54 * size in
    let d = dvd_of_mod-eq-zero size divides in
    rw (virt_to_phys_user-mapped k uninit fds pid vaddr small m) (
      u64 (u64 base + vaddr % size) % size
      ≡⟨ mod-mod_of_dvd size (u64 base + vaddr % size) d ⟩ (u64 base + vaddr % size) % size
      ≡⟨ sym (mod-add-mod (u64 base) size (vaddr % size)) ⟩ (u64 base % size + vaddr % size) % size
      ≡⟨ ap (λ (t : ℕ). (t + vaddr % size) % size)
          (mod-mod_of_dvd size base d ∙ mul-mod_left _ size) ⟩
        (0 + vaddr % size) % size
      ≡⟨ ap (λ (t : ℕ). t % size) (omega arith) ⟩ vaddr % size % size
      ≡⟨ mod-mod vaddr size ⟩ vaddr % size ∎)
