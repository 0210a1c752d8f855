-- ===== src/Labels.antt =====
-- hardcore_new6.c: `findSource`, which names the source of a sample's data, and `print_event_type`.
-- The bits of `data_src` are those of linux/perf_event.h: `mask f` is `PERF_MEM_…<<PERF_MEM_…_SHIFT`.
pub mod Last
use node2x6x2b.Base.{ℕ, Bool, not, List, [], ◌∷◌, bit_and, ◌==◌, if◌then◌else◌}
use Prim.Native.String.{String}
use node2x6x2b.Perf.Abi.{EventType}

-- The flags that the function tests.
pub data MemFlag : Type 0 where
  op_na op_load op_store op_pfetch op_exec : MemFlag
  lvl_na lvl_hit lvl_miss lvl_l1 lvl_lfb lvl_l2 lvl_l3 lvl_loc_ram lvl_rem_ram1 lvl_rem_ram2
        lvl_rem_cce1 lvl_rem_cce2 lvl_io lvl_unc :
      MemFlag
  snoop_na snoop_none snoop_hit snoop_miss snoop_hitm : MemFlag
  lock_na lock_locked : MemFlag
  tlb_na tlb_hit tlb_miss tlb_l1 tlb_l2 tlb_wk tlb_os : MemFlag

-- The text that is copied for a flag.
unfoldable pub label : MemFlag → String
label MemFlag.op_na = "Op Not available "
label MemFlag.op_load = "Load "
label MemFlag.op_store = "Store "
label MemFlag.op_pfetch = "Prefetch "
label MemFlag.op_exec = "Executable code "
label MemFlag.lvl_na = "Level Not available "
label MemFlag.lvl_hit = "Hit "
label MemFlag.lvl_miss = "Miss "
label MemFlag.lvl_l1 = "L1 cache "
label MemFlag.lvl_lfb = "Line fill buffer "
label MemFlag.lvl_l2 = "L2 cache "
label MemFlag.lvl_l3 = "L3 cache "
label MemFlag.lvl_loc_ram = "Local DRAM "
label MemFlag.lvl_rem_ram1 = "Remote DRAM 1 hop "
label MemFlag.lvl_rem_ram2 = "Remote DRAM 2 hops "
label MemFlag.lvl_rem_cce1 = "Remote cache 1 hop "
label MemFlag.lvl_rem_cce2 = "Remote cache 2 hops "
label MemFlag.lvl_io = "I/O memory "
label MemFlag.lvl_unc = "Uncached memory "
label MemFlag.snoop_na = "Not available "
label MemFlag.snoop_none = "No snoop "
label MemFlag.snoop_hit = "Snoop hit "
label MemFlag.snoop_miss = "Snoop miss "
label MemFlag.snoop_hitm = "Snoop hit modified "
label MemFlag.lock_na = "Not available "
label MemFlag.lock_locked = "Locked transaction "
label MemFlag.tlb_na = "Not available "
label MemFlag.tlb_hit = "TLB Hit "
label MemFlag.tlb_miss = "TLB Miss "
label MemFlag.tlb_l1 = "Level 1 TLB "
label MemFlag.tlb_l2 = "Level 2 TLB "
label MemFlag.tlb_wk = "Hardware walker "
label MemFlag.tlb_os = "OS fault handler "

-- The flags in the order of the tests.
abbrev pub all_flags : List MemFlag
all_flags =
    MemFlag.op_na ∷ MemFlag.op_load ∷ MemFlag.op_store ∷ MemFlag.op_pfetch ∷ MemFlag.op_exec
    ∷ MemFlag.lvl_na ∷ MemFlag.lvl_hit ∷ MemFlag.lvl_miss ∷ MemFlag.lvl_l1 ∷ MemFlag.lvl_lfb
    ∷ MemFlag.lvl_l2 ∷ MemFlag.lvl_l3 ∷ MemFlag.lvl_loc_ram ∷ MemFlag.lvl_rem_ram1
    ∷ MemFlag.lvl_rem_ram2 ∷ MemFlag.lvl_rem_cce1 ∷ MemFlag.lvl_rem_cce2 ∷ MemFlag.lvl_io
    ∷ MemFlag.lvl_unc ∷ MemFlag.snoop_na ∷ MemFlag.snoop_none ∷ MemFlag.snoop_hit
    ∷ MemFlag.snoop_miss ∷ MemFlag.snoop_hitm ∷ MemFlag.lock_na ∷ MemFlag.lock_locked
    ∷ MemFlag.tlb_na ∷ MemFlag.tlb_hit ∷ MemFlag.tlb_miss ∷ MemFlag.tlb_l1 ∷ MemFlag.tlb_l2
    ∷ MemFlag.tlb_wk ∷ MemFlag.tlb_os ∷ []

module _ (mask : MemFlag → ℕ) where
  -- `src & (PERF_MEM_…<<PERF_MEM_…_SHIFT)`
  abbrev pub has : ℕ → MemFlag → Bool
  has src f = not (bit_and src (mask f) == 0)

  -- The tests one after the other; each `strcpy` replaces the text.
  unfoldable pub copy_labels : ℕ → List MemFlag → String → String
  copy_labels src [] text = text
  copy_labels src (f ∷ fs) text = copy_labels src fs (if has src f then label f else text)

  unfoldable pub find_source : String → ℕ → String
  find_source text src = copy_labels src all_flags (if not (src == 0) then "" else text)

-- What `print_event_type` prints; `sample_type` is printed for a sample only.
record EventLine : Type 0 where
  pub text : String
  pub sample_types : List ℕ

abbrev line : String → EventLine
line text = record { text = text; sample_types = [] }

unfoldable print_event_type : EventType → ℕ → EventLine
print_event_type EventType.mmap sample_type = line "PERF_RECORD_MMAP"
print_event_type EventType.lost sample_type = line "PERF_RECORD_LOST"
print_event_type EventType.comm sample_type = line "PERF_RECORD_COMM"
print_event_type EventType.exit sample_type = line "PERF_RECORD_EXIT"
print_event_type EventType.throttle sample_type = line "PERF_RECORD_THROTTLE"
print_event_type EventType.unthrottle sample_type = line "PERF_RECORD_UNTHROTTLE"
print_event_type EventType.fork sample_type = line "PERF_RECORD_FORK"
print_event_type EventType.read sample_type = line "PERF_RECORD_READ"
print_event_type EventType.sample sample_type = record {
  text = "PERF_RECORD_SAMPLE";
  sample_types = sample_type ∷ [];
}
print_event_type EventType.mmap2 sample_type = line "PERF_RECORD_MMAP2"
print_event_type EventType.other sample_type = line "Unknown"
