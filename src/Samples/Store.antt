-- ===== src/Samples/Store.antt =====
-- `storeSample` keeps the tables right, and when it writes outside an array.
use node2x6x2b.Base.{
  ℕ, ◌+◌, ◌≤◌, ◌<◌, ◌≡◌, ◌≢◌, refl, sym, ◌∙◌, arith, false, none, some, List, ◌∷◌, ◌==◌, Bool-cases,
  Option-cases, inl, inr, update, ◌⊎◌,
}
use native.Mathlib.Decide.{dec_lt}
use node2x6x2b.Pagemap.{Kernel, Translated, virt_to_phys_user, pagemap_get_entry}
use node2x6x2b.Samples.{
  unique, thread_max, Track, ThreadInfo, Globals, Sample, find_thread, first_address, store_new,
  store_known, store_sample,
}
use node2x6x2b.Samples.History.{
  Represents, IsClear, next_address-Represents, first_address-Represents, next_address-full,
  index-pos,
}
use node2x6x2b.Samples.Thread.{
  Stored, virtual_address, physical_address, addresses, IsUnknown, Inv, find_thread-some,
  find_thread-none,
}

addresses-own :
    (f : Stored → ℕ) (tid : ℕ) (r : Stored) (rs : List Stored)
    → r.sample.tid ≡ tid
    → addresses f tid (r ∷ rs) ≡ f r ∷ addresses f tid rs
unfolding addresses
addresses-own f tid r rs e = ground arith

addresses-other :
    (f : Stored → ℕ) (tid : ℕ) (r : Stored) (rs : List Stored)
    → r.sample.tid ≢ tid
    → addresses f tid (r ∷ rs) ≡ addresses f tid rs
unfolding addresses
addresses-other f tid r rs e = ground arith

module _ {g : Globals} {stored : List Stored} (inv : Inv g stored) (s : Sample)
    (phy : Translated) where
  abbrev entry : Stored
  entry = record { sample = s; paddr = phy.paddr }

  -- Another thread than that of the sample is left alone.
  kept :
      (f : Stored → ℕ) (part : ThreadInfo → Track) (i : ℕ)
      → (g.threads i).tid ≢ s.tid
      → Represents (part (g.threads i)) (addresses f (g.threads i).tid stored)
      → Represents (part (g.threads i)) (addresses f (g.threads i).tid (entry ∷ stored))
  kept f part i ne rep = rw (addresses-other f (g.threads i).tid entry stored (λ e. ne (sym e))) rep

  module _ (i : ℕ) (lt : i < g.thread_index) (own : (g.threads i).tid ≡ s.tid) where
    abbrev with_tracks : Track → Track → Globals
    with_tracks virt phys = record g {
      threads = update g.threads i (record (g.threads i) { virt = virt; phys = phys });
      fds = phy.fds;
    }

    known-Inv :
        (virt phys : Track)
        → Represents virt (s.addr ∷ addresses virtual_address (g.threads i).tid stored)
        → Represents phys (phy.paddr ∷ addresses physical_address (g.threads i).tid stored)
        → Inv (with_tracks virt phys) (entry ∷ stored)
    known-Inv virt phys v p = record {
      few = inv.few;
      sampled = omega (arith, inv.sampled);
      distinct = λ a b q r e. ground (arith, inv.distinct a b);
      virt = λ j q. elim (Bool-cases (j == i)) [
        | inl same ↦
            rw (same, addresses-own virtual_address (g.threads i).tid entry stored (sym own)) v
        | inr other ↦ rw other (
            kept virtual_address (λ t. t.virt) j (λ e. ground (arith, inv.distinct j i))
              (inv.virt j q))
      ];
      phys = λ j q. elim (Bool-cases (j == i)) [
        | inl same ↦
            rw (same, addresses-own physical_address (g.threads i).tid entry stored (sym own)) p
        | inr other ↦ rw other (
            kept physical_address (λ t. t.phys) j (λ e. ground (arith, inv.distinct j i))
              (inv.phys j q))
      ];
      populated = λ j q. ground (arith, inv.populated j, index-pos s.addr v, index-pos phy.paddr p);
      unknown = λ f tid u.
          addresses-other f tid entry stored (λ e. u i lt (ground arith))
          ∙ inv.unknown f tid (λ j q. ground (arith, u j q));
      unused = λ j q r. let ne : (j == i) ≡ false = ground arith in rw ne (inv.unused j q r);
    }

    -- A thread that is known, with room in both tables.
    store_known-Inv :
        (g.threads i).virt.mem_addr_index < unique
        → (g.threads i).phys.mem_addr_index < unique
        → (g' : Globals) × (store_known s phy i g ≡ some g') × Inv g' (entry ∷ stored)
    unfolding store_known
    store_known-Inv v p =
        let (virt', ev, rv) =
          next_address-Represents (g.threads i).virt _ s.addr (inv.virt i lt) v in
        let (phys', ep, rp) =
          next_address-Represents (g.threads i).phys _ phy.paddr (inv.phys i lt) p in
        (with_tracks virt' phys', rw (ev, ep), known-Inv virt' phys' rv rp)

  abbrev with_thread : Globals
  with_thread = record {
    threads = update g.threads g.thread_index (record {
      pid = s.pid;
      tid = s.tid;
      core = s.cpu;
      virt = first_address s.addr (g.threads g.thread_index).virt;
      phys = first_address phy.paddr (g.threads g.thread_index).phys;
    });
    thread_index = g.thread_index + 1;
    fds = phy.fds;
  }

  module _ (room : g.thread_index < thread_max) (fresh : IsUnknown g s.tid) where
    -- The only address of the new thread.
    first :
        (f : Stored → ℕ) (part : ThreadInfo → Track)
        → IsClear (part (g.threads g.thread_index))
        → Represents
            (first_address (f entry) (part (g.threads g.thread_index)))
            (addresses f s.tid (entry ∷ stored))
    first f part clear =
        rw (addresses-own f s.tid entry stored refl, inv.unknown f s.tid fresh)
          (first_address-Represents (part (g.threads g.thread_index)) (f entry) clear)

    new-Inv : Inv with_thread (entry ∷ stored)
    new-Inv = record {
      few = omega arith;
      sampled = omega (arith, inv.sampled);
      distinct = λ a b q r e. ground (arith, inv.distinct a b, fresh a, fresh b);
      virt = λ j q. elim (Bool-cases (j == g.thread_index)) [
        | inl same ↦
            rw same
              (first virtual_address (λ t. t.virt) (inv.unused g.thread_index (omega arith) room).0)
        | inr other ↦
            let below : j < g.thread_index = ground arith in
            rw other (kept virtual_address (λ t. t.virt) j (fresh j below) (inv.virt j below))
      ];
      phys = λ j q. elim (Bool-cases (j == g.thread_index)) [
        | inl same ↦
            rw same (
              first physical_address (λ t. t.phys) (inv.unused g.thread_index (omega arith) room).1)
        | inr other ↦
            let below : j < g.thread_index = ground arith in
            rw other (kept physical_address (λ t. t.phys) j (fresh j below) (inv.phys j below))
      ];
      populated = λ j q. unfold first_address in ground (arith, inv.populated j);
      unknown = λ f tid u.
          addresses-other f tid entry stored (λ e. u g.thread_index (omega arith) (ground arith))
          ∙ inv.unknown f tid (λ j q. ground (arith, u j));
      unused = λ j q r.
          let ne : (j == g.thread_index) ≡ false = ground arith in
          rw ne (inv.unused j (omega arith) r);
    }

    store_new-Inv : (g' : Globals) × (store_new s phy g ≡ some g') × Inv g' (entry ∷ stored)
    unfolding store_new
    store_new-Inv = (with_thread, ground arith, new-Inv)

-- The arrays have room for a sample of this thread.
abbrev pub HasRoom : Globals → ℕ → Type 0
HasRoom g tid =
    ((i : ℕ)
      → i < g.thread_index
      → (g.threads i).tid ≡ tid
      → ((g.threads i).virt.mem_addr_index < unique) × ((g.threads i).phys.mem_addr_index < unique))
    × (IsUnknown g tid → g.thread_index < thread_max)

-- The address that `storeSample` finds, and the descriptors that are open after it.
abbrev pub translated : Kernel → ℕ → Sample → Globals → Translated
translated k uninit s g = virt_to_phys_user k uninit g.fds s.pid s.addr

-- The address does not depend on the number of open descriptors.
virt_to_phys_user_fds :
    (k : Kernel) (uninit fds pid vaddr : ℕ)
    → (virt_to_phys_user k uninit fds pid vaddr).paddr
      ≡ (virt_to_phys_user k uninit 0 pid vaddr).paddr
unfolding virt_to_phys_user
virt_to_phys_user_fds k uninit fds pid vaddr = elim (Option-cases (k.open_pagemap pid)) [
  | inl e ↦ rw e refl
  | inr (fd, e) ↦ rw e (elim (Option-cases (pagemap_get_entry k uninit fd vaddr)) [
    | inl e' ↦ rw e' refl
    | inr (entry, e') ↦ rw e' refl
  ])
]

abbrev pub stored_as : Kernel → ℕ → Sample → Stored
stored_as k uninit s = record {
  sample = s;
  paddr = (virt_to_phys_user k uninit 0 s.pid s.addr).paddr;
}

-- Where the arrays have room, `storeSample` ends with every table right for the samples stored so far
-- and the new one.
pub store_sample-Inv :
    (k : Kernel) (uninit : ℕ) (s : Sample) (g : Globals) (stored : List Stored)
    → Inv g stored
    → HasRoom g s.tid
    → (g' : Globals) × (store_sample k uninit s g ≡ some g')
      × Inv g' (stored_as k uninit s ∷ stored)
unfolding store_sample
store_sample-Inv k uninit s g stored inv room =
    rw (← virt_to_phys_user_fds k uninit g.fds s.pid s.addr)
      (elim (Option-cases (find_thread g.threads s.tid g.thread_index 0)) [
        | inl e ↦
            let fresh : IsUnknown g s.tid = λ i p.
              find_thread-none g.threads s.tid g.thread_index 0 i e (omega arith) (omega arith) in
            rw e (store_new-Inv inv s (translated k uninit s g) (room.1 fresh) fresh)
        | inr (i, e) ↦
            let (own, low, high) = find_thread-some g.threads s.tid g.thread_index 0 i e in
            let lt : i < g.thread_index = omega arith in
            let (v, p) = room.0 i lt own in
            rw e (store_known-Inv inv s (translated k uninit s g) i lt own v p)
      ])

store_known-full :
    (s : Sample) (phy : Translated) (i : ℕ) (g : Globals)
    → ((unique ≤ (g.threads i).virt.mem_addr_index) ⊎ (unique ≤ (g.threads i).phys.mem_addr_index))
    → store_known s phy i g ≡ none
unfolding store_known
store_known-full s phy i g full = ground (
  arith,
  next_address-full (g.threads i).virt s.addr,
  next_address-full (g.threads i).phys phy.paddr,
)

-- Where the thread of the sample is known at one place and has a full table, `storeSample` writes outside
-- an array, whether or not the address is in the table.
pub store_sample-full :
    (k : Kernel) (uninit : ℕ) (s : Sample) (g : Globals) (i : ℕ)
    → i < g.thread_index
    → (g.threads i).tid ≡ s.tid
    → ((j : ℕ) → j < g.thread_index → (g.threads j).tid ≡ s.tid → i ≡ j)
    → ((unique ≤ (g.threads i).virt.mem_addr_index) ⊎ (unique ≤ (g.threads i).phys.mem_addr_index))
    → store_sample k uninit s g ≡ none
unfolding store_sample
store_sample-full k uninit s g i lt own only full =
    elim (Option-cases (find_thread g.threads s.tid g.thread_index 0)) [
      | inl e ↦
          absurd
            (find_thread-none g.threads s.tid g.thread_index 0 i e (omega arith) (omega arith) own)
      | inr (j, e) ↦
          let (same, low, high) = find_thread-some g.threads s.tid g.thread_index 0 j e in
          let here : i ≡ j = only j (omega arith) same in
          rw e (store_known-full s (translated k uninit s g) j g (rw here at full))
    ]

-- For a thread that is not among the `THREAD_MAX` known ones `storeSample` writes outside `threads`.
store_sample-too_many :
    (k : Kernel) (uninit : ℕ) (s : Sample) (g : Globals)
    → g.thread_index ≡ thread_max
    → IsUnknown g s.tid
    → store_sample k uninit s g ≡ none
unfolding store_sample store_new
store_sample-too_many k uninit s g many fresh =
    elim (Option-cases (find_thread g.threads s.tid g.thread_index 0)) [
      | inl e ↦ rw e (ground arith)
      | inr (j, e) ↦
          let (same, low, high) = find_thread-some g.threads s.tid g.thread_index 0 j e in
          absurd (fresh j (omega arith) same)
    ]

-- `storeSample` stays inside the arrays only where they have room.
pub store_sample-HasRoom :
    (k : Kernel) (uninit : ℕ) (s : Sample) (g g' : Globals) (stored : List Stored)
    → Inv g stored
    → store_sample k uninit s g ≡ some g'
    → HasRoom g s.tid
store_sample-HasRoom k uninit s g g' stored inv done = (
  λ i lt own. (
    elim (dec_lt (g.threads i).virt.mem_addr_index unique) [
      | yes p ↦ p
      | no p ↦ cc (
        done,
        store_sample-full k uninit s g i lt own
            (λ j lt' own'. inv.distinct i j lt lt' (own ∙ sym own')) (inl (omega arith)),
      )
    ],
    elim (dec_lt (g.threads i).phys.mem_addr_index unique) [
      | yes p ↦ p
      | no p ↦ cc (
        done,
        store_sample-full k uninit s g i lt own
            (λ j lt' own'. inv.distinct i j lt lt' (own ∙ sym own')) (inr (omega arith)),
      )
    ],
  ),
  λ fresh. elim (dec_lt g.thread_index thread_max) [
    | yes p ↦ p
    | no p ↦ cc (done, store_sample-too_many k uninit s g (omega (arith, inv.few)) fresh)
  ],
)
