-- ===== src/Samples.antt =====
-- hardcore_new6.c: `struct thread_info`, `initialize` and `storeSample`, the per-thread tables of
-- sampled addresses with their Bloom filters.
-- The struct has each table twice, `mem_addr, freq, mem_addr_index, filter, filter_freq` for virtual
-- addresses and the same fields with `phy_` for physical ones; a `Track` is one of the two groups.
-- A C array is a function of the index. Every write at an index that is computed is checked against
-- the array's length: `none` is a write outside, which C leaves undefined.
-- The `int` counters are plain numbers: no counter passes the number of samples stored.
pub mod History
pub mod Thread
pub mod Store
pub mod Runs
use node2x6x2b.Base.{
  ℕ, zero, suc, ◌+◌, Bool, true, false, Option, none, some, List, [], ◌∷◌, ltb, ◌==◌, if◌then◌else◌,
  ◌>>=◌, guard, update,
}
use node2x6x2b.Hash.{hash, filter_size}
use node2x6x2b.Pagemap.{Kernel, Translated, virt_to_phys_user}

-- `#define UNIQUE 100`
abbrev pub unique : ℕ
unique = 100

-- `#define THREAD_MAX 100`
abbrev pub thread_max : ℕ
thread_max = 100

pub record Track : Type 0 where
  pub mem_addr : ℕ → ℕ
  pub freq : ℕ → ℕ
  pub mem_addr_index : ℕ
  pub filter : ℕ → Bool
  pub filter_freq : ℕ → ℕ

pub record ThreadInfo : Type 0 where
  pub pid : ℕ
  pub tid : ℕ
  pub core : ℕ
  pub virt : Track
  pub phys : Track

-- The globals `threads` and `thread_index`, and the number of descriptors that are open.
pub record Globals : Type 0 where
  pub threads : ℕ → ThreadInfo
  pub thread_index : ℕ
  pub fds : ℕ

-- The two assignments to each filter in the inner loop of `initialize`, for all `j < M`.
abbrev pub clear : Track → Track
clear tr = record tr {
  filter = λ j. if ltb j filter_size then false else tr.filter j;
  filter_freq = λ j. if ltb j filter_size then 0 else tr.filter_freq j;
}

unfoldable pub initialize : Globals → Globals
initialize g = record g {
  threads = λ i.
      let th = g.threads i in
      if ltb i thread_max then record th { virt = clear th.virt; phys = clear th.phys } else th;
}

-- `for(j=0;j<index;j++) if(addr==mem_addr[j]) … break;` from `j` on, with `left` rounds to go.
unfoldable pub find_addr : (ℕ → ℕ) → ℕ → ℕ → ℕ → Option ℕ
find_addr mem_addr addr zero j = none
find_addr mem_addr addr (suc left) j =
    let rest = find_addr mem_addr addr left (j + 1) in if addr == mem_addr j then some j else rest

-- The search for the thread.
unfoldable pub find_thread : (ℕ → ThreadInfo) → ℕ → ℕ → ℕ → Option ℕ
find_thread threads tid zero i = none
find_thread threads tid (suc left) i =
    let rest = find_thread threads tid left (i + 1) in
    if (threads i).tid == tid then some i else rest

-- The first address of a new thread.
unfoldable pub first_address : ℕ → Track → Track
first_address addr tr = record {
  mem_addr = update tr.mem_addr 0 addr;
  freq = update tr.freq 0 1;
  mem_addr_index = 1;
  filter = update tr.filter (hash addr) true;
  filter_freq = update tr.filter_freq (hash addr) (tr.filter_freq (hash addr) + 1);
}

-- After the search among the addresses of a known thread: one more of address `j`, or a new address.
abbrev pub note_address : ℕ → Track → Option ℕ → Track
note_address addr tr (some j) = record tr { freq = update tr.freq j (tr.freq j + 1) }
note_address addr tr none = record {
  mem_addr = update tr.mem_addr tr.mem_addr_index addr;
  freq = update tr.freq tr.mem_addr_index 1;
  mem_addr_index = tr.mem_addr_index + 1;
  filter = update tr.filter (hash addr) true;
  filter_freq = update tr.filter_freq (hash addr) (tr.filter_freq (hash addr) + 1);
}

-- `mem_addr[mem_addr_index]=addr`, which comes before the search, and then the search.
unfoldable pub next_address : ℕ → Track → Option Track
next_address addr tr =
    let tr' = record tr { mem_addr = update tr.mem_addr tr.mem_addr_index addr } in
    guard (ltb tr.mem_addr_index unique)
      (some (note_address addr tr' (find_addr tr'.mem_addr addr tr'.mem_addr_index 0)))

pub record Sample : Type 0 where
  pub pid : ℕ
  pub tid : ℕ
  pub addr : ℕ
  pub cpu : ℕ

unfoldable pub store_new : Sample → Translated → Globals → Option Globals
store_new s phy g =
    let th = g.threads g.thread_index in
    let th' : ThreadInfo = record {
      pid = s.pid;
      tid = s.tid;
      core = s.cpu;
      virt = first_address s.addr th.virt;
      phys = first_address phy.paddr th.phys;
    } in
    guard (ltb g.thread_index thread_max) (
      some (record {
        threads = update g.threads g.thread_index th';
        thread_index = g.thread_index + 1;
        fds = phy.fds;
      }))

unfoldable pub store_known : Sample → Translated → ℕ → Globals → Option Globals
store_known s phy i g = do
  virt' ← next_address s.addr (g.threads i).virt
  phys' ← next_address phy.paddr (g.threads i).phys
  some (record g {
    threads = update g.threads i (record (g.threads i) { virt = virt'; phys = phys' });
    fds = phy.fds;
  })

-- The branch on `flag`.
abbrev pub store_at : Sample → Translated → Globals → Option ℕ → Option Globals
store_at s phy g none = store_new s phy g
store_at s phy g (some i) = store_known s phy i g

unfoldable pub store_sample : Kernel → ℕ → Sample → Globals → Option Globals
store_sample k uninit s g =
    store_at s (virt_to_phys_user k uninit g.fds s.pid s.addr) g
      (find_thread g.threads s.tid g.thread_index 0)
