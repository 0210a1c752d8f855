-- ===== src/Older.antt =====
-- hardcore_new5.c: `struct thread_info`, `hash` and `storeSample`. An access to an array is checked: `none` is one
-- outside.
pub mod Sign
use node2x6x2b.Base.{
  ℕ, zero, suc, ◌+◌, ◌-◌, ◌*◌, Bool, true, false, ◌&&◌, Option, none, some, u32, u64, srem, ltb,
  ◌==◌, if◌then◌else◌, ◌>>=◌, guard, update,
}

abbrev pub unique : ℕ
unique = 100

abbrev pub thread_max : ℕ
thread_max = 100

abbrev pub filter_size : ℕ
filter_size = 1000

pub record ThreadInfo : Type 0 where
  pub pid : ℕ
  pub tid : ℕ
  pub core : ℕ
  pub mem_addr : ℕ → ℕ
  pub freq : ℕ → ℕ
  pub mem_addr_index : ℕ
  pub filter : ℕ → Bool
  pub filter_freq : ℕ → ℕ

pub record Globals : Type 0 where
  pub threads : ℕ → ThreadInfo
  pub thread_index : ℕ

-- A `long long` is its 64-bit pattern, and the `int` that is returned its 32-bit pattern.
unfoldable pub hash : ℕ → ℕ
hash addr = u32 (srem 64 (u64 (addr * (addr - 1) * 5 + 3)) filter_size)

-- The loop over the threads at `i`: where `flag` is set, or `none`.
unfoldable pub find_thread : ℕ → ℕ → (ℕ → ThreadInfo) → ℕ → Option ℕ
find_thread zero i threads tid = none
find_thread (suc left) i threads tid =
    let rest = find_thread left (i + 1) threads tid in
    if (threads i).tid == tid then some i else rest

-- The loop over the addresses at `j`: where `f` is set, or `none`.
unfoldable pub find_addr : ℕ → ℕ → (ℕ → ℕ) → ℕ → Option ℕ
find_addr zero j mem_addr addr = none
find_addr (suc left) j mem_addr addr =
    let rest = find_addr left (j + 1) mem_addr addr in if addr == mem_addr j then some j else rest

-- The assignments for an address that is not in the table.
unfoldable pub note_address : ℕ → ThreadInfo → Option ThreadInfo
note_address addr t = guard (ltb t.mem_addr_index unique && ltb (hash addr) filter_size) (
    some (record t {
      mem_addr = update t.mem_addr t.mem_addr_index addr;
      freq = update t.freq t.mem_addr_index 1;
      filter = update t.filter (hash addr) true;
      filter_freq = update t.filter_freq (hash addr) (t.filter_freq (hash addr) + 1);
      mem_addr_index = t.mem_addr_index + 1;
    }))

abbrev after_search : ℕ → ThreadInfo → Option ℕ → Option ThreadInfo
after_search addr t (some j) = some (record t { freq = update t.freq j (t.freq j + 1) })
after_search addr t none = note_address addr t

-- The branch for a thread that is known: the address is written behind the others before the search.
unfoldable pub store_known : ℕ → ThreadInfo → Option ThreadInfo
store_known addr t = guard (ltb t.mem_addr_index unique) (
    let t' : ThreadInfo = record t { mem_addr = update t.mem_addr t.mem_addr_index addr } in
    after_search addr t' (find_addr t.mem_addr_index 0 t'.mem_addr addr))

-- The branch for a new thread.
unfoldable pub store_new : ℕ → ℕ → ℕ → ℕ → ThreadInfo → Option ThreadInfo
store_new pid tid addr cpu t =
    note_address addr (record t { pid = pid; tid = tid; core = cpu; mem_addr_index = 0 })

abbrev pub store_at : ℕ → ℕ → ℕ → ℕ → Globals → Option ℕ → Option Globals
store_at pid tid addr cpu g (some i) = do
  t ← store_known addr (g.threads i)
  some (record g { threads = update g.threads i t })
store_at pid tid addr cpu g none = guard (ltb g.thread_index thread_max) (do
  t ← store_new pid tid addr cpu (g.threads g.thread_index)
  some
      (record g { threads = update g.threads g.thread_index t; thread_index = g.thread_index + 1 }))

unfoldable pub store_sample : ℕ → ℕ → ℕ → ℕ → Globals → Option Globals
store_sample pid tid addr cpu g =
    store_at pid tid addr cpu g (find_thread g.thread_index 0 g.threads tid)
