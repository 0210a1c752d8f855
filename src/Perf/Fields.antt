-- ===== src/Perf/Fields.antt =====
-- `perf_mmap_read`, the part under `if(event->type==PERF_RECORD_SAMPLE)`: the fields of a sample, in
-- the order in which the kernel writes those that `sample_type` asks for.
-- Each `memcpy` from `data` is checked against its length, `bytesize`; so `offset`, an unsigned long,
-- never wraps before a read outside the array. Bytes of a number lie lowest first.
use node2x6x2b.Base.{
  ℕ, zero, suc, ◌+◌, ◌*◌, ◌^◌, Bool, true, false, Option, some, List, [], ◌∷◌, ltb, leb,
  if◌then◌else◌, ◌>>=◌, guard,
}
use node2x6x2b.Perf.Abi.{PerfAbi, SampleFlag}

-- `data`, as allocated by `malloc(bytesize)`.
pub record Buffer : Type 0 where
  pub bytes : ℕ → ℕ
  pub bytesize : ℕ

abbrev pub int_at : (ℕ → ℕ) → ℕ → ℕ
int_at bytes at =
    bytes at + bytes (at + 1) * 2 ^ 8 + bytes (at + 2) * 2 ^ 16 + bytes (at + 3) * 2 ^ 24

abbrev pub long_at : (ℕ → ℕ) → ℕ → ℕ
long_at bytes at = int_at bytes at + int_at bytes (at + 4) * 2 ^ 32

-- `memcpy(&x,&data[offset],n)` for an `int` and for a `long long`
unfoldable pub copy_int : Buffer → ℕ → Option ℕ
copy_int b at = guard (leb (at + 4) b.bytesize) (some (int_at b.bytes at))

unfoldable pub copy_long : Buffer → ℕ → Option ℕ
copy_long b at = guard (leb (at + 8) b.bytesize) (some (long_at b.bytes at))

-- The variables of the block, all 0 at first, and `offset`.
pub record Fields : Type 0 where
  pub offset : ℕ
  pub ip : ℕ
  pub pid : ℕ
  pub tid : ℕ
  pub time : ℕ
  pub addr : ℕ
  pub id : ℕ
  pub stream_id : ℕ
  pub cpu : ℕ
  pub res : ℕ
  pub period : ℕ
  pub weight : ℕ
  pub data_src : ℕ

abbrev pub no_fields : ℕ → Fields
no_fields offset = record {
  offset = offset;
  ip = 0;
  pid = 0;
  tid = 0;
  time = 0;
  addr = 0;
  id = 0;
  stream_id = 0;
  cpu = 0;
  res = 0;
  period = 0;
  weight = 0;
  data_src = 0;
}

-- `if(sample_type & PERF_SAMPLE_…)`
abbrev pub when : Bool → (Fields → Option Fields) → Fields → Option Fields
when true step f = step f
when false step f = some f

-- A signed count: the loop `for(i=0;i<n;i++)` has no rounds for a negative one.
abbrev pub rounds : ℕ → ℕ → ℕ
rounds width n = if ltb n (2 ^ width) then n else 0

-- Blocks of code one after the other.
abbrev pub in_order : List (Fields → Option Fields) → Fields → Option Fields
in_order [] f = some f
in_order (step ∷ steps) f = step f >>= in_order steps

module _ (b : Buffer) where
  unfoldable pub ip_field : Fields → Option Fields
  ip_field f = do v ← copy_long b f.offset; some (record f { ip = v; offset = f.offset + 8 })

  unfoldable pub tid_field : Fields → Option Fields
  tid_field f = do
    p ← copy_int b f.offset
    t ← copy_int b (f.offset + 4)
    some (record f { pid = p; tid = t; offset = f.offset + 8 })

  -- Only `sizeof(int)` bytes of the time are copied.
  unfoldable pub time_field : Fields → Option Fields
  time_field f = do v ← copy_int b f.offset; some (record f { time = v; offset = f.offset + 8 })

  unfoldable pub addr_field : Fields → Option Fields
  addr_field f = do v ← copy_long b f.offset; some (record f { addr = v; offset = f.offset + 8 })

  unfoldable pub id_field : Fields → Option Fields
  id_field f = do v ← copy_long b f.offset; some (record f { id = v; offset = f.offset + 8 })

  unfoldable pub stream_id_field : Fields → Option Fields
  stream_id_field f = do
    v ← copy_long b f.offset
    some (record f { stream_id = v; offset = f.offset + 8 })

  unfoldable pub cpu_field : Fields → Option Fields
  cpu_field f = do
    c ← copy_int b f.offset
    r ← copy_int b (f.offset + 4)
    some (record f { cpu = c; res = r; offset = f.offset + 8 })

  unfoldable pub period_field : Fields → Option Fields
  period_field f = do
    v ← copy_long b f.offset
    some (record f { period = v; offset = f.offset + 8 })

  -- A loop that copies `left` items of `width` bytes each.
  unfoldable pub skip_items : ℕ → ℕ → ℕ → Option ℕ
  skip_items width zero offset = some offset
  skip_items width (suc left) offset =
      let rest = skip_items width left (offset + width) in
      guard (leb (offset + width) b.bytesize) rest

  unfoldable pub callchain_field : Fields → Option Fields
  callchain_field f = do
    nr ← copy_long b f.offset
    offset' ← skip_items 8 (rounds 63 nr) (f.offset + 8)
    some (record f { offset = offset' })

  -- The local array of `size_raw` characters is called `data` too, so the loop reads from it and not
  -- from the buffer: at `offset`, which has to be below `size_raw`.
  unfoldable pub raw_items : ℕ → ℕ → ℕ → Option ℕ
  raw_items size_raw zero offset = some offset
  raw_items size_raw (suc left) offset =
      let rest = raw_items size_raw left (offset + 1) in guard (ltb offset size_raw) rest

  unfoldable pub raw_field : Fields → Option Fields
  raw_field f = do
    size_raw ← copy_int b f.offset
    offset' ← raw_items (rounds 31 size_raw) (rounds 31 size_raw) (f.offset + 4)
    some (record f { offset = offset' })

  unfoldable pub branch_stack_field : PerfAbi → Fields → Option Fields
  branch_stack_field abi f = do
    bnr ← copy_long b f.offset
    offset' ← skip_items abi.branch_entry_size (rounds 63 bnr) (f.offset + 8)
    some (record f { offset = offset' })

  -- Only `abi` is read: the registers are "not complete" in the source.
  unfoldable pub regs_user_field : Fields → Option Fields
  regs_user_field f = do v ← copy_long b f.offset; some (record f { offset = f.offset + 8 })

  unfoldable pub stack_user_field : Fields → Option Fields
  stack_user_field f = do
    size_stack ← copy_long b f.offset
    offset' ← skip_items 1 (rounds 63 size_stack) (f.offset + 8)
    dyn_size ← copy_long b offset'
    some (record f { offset = offset' + 8 })

  unfoldable pub weight_field : Fields → Option Fields
  weight_field f = do
    v ← copy_long b f.offset
    some (record f { weight = v; offset = f.offset + 8 })

  unfoldable pub data_src_field : Fields → Option Fields
  data_src_field f = do
    v ← copy_long b f.offset
    some (record f { data_src = v; offset = f.offset + 8 })

  abbrev pub field_blocks : PerfAbi → (SampleFlag → Bool) → List (Fields → Option Fields)
  field_blocks abi sample_type =
      when (sample_type SampleFlag.ip) ip_field
      ∷ when (sample_type SampleFlag.tid) tid_field
      ∷ when (sample_type SampleFlag.time) time_field
      ∷ when (sample_type SampleFlag.addr) addr_field
      ∷ when (sample_type SampleFlag.id) id_field
      ∷ when (sample_type SampleFlag.stream_id) stream_id_field
      ∷ when (sample_type SampleFlag.cpu) cpu_field
      ∷ when (sample_type SampleFlag.period) period_field
      ∷ when (sample_type SampleFlag.callchain) callchain_field
      ∷ when (sample_type SampleFlag.raw) raw_field
      ∷ when (sample_type SampleFlag.branch_stack) (branch_stack_field abi)
      ∷ when (sample_type SampleFlag.regs_user) regs_user_field
      ∷ when (sample_type SampleFlag.stack_user) stack_user_field
      ∷ when (sample_type SampleFlag.weight) weight_field
      ∷ when (sample_type SampleFlag.data_src) data_src_field
      ∷ []

  -- The whole block, from the `offset` behind the header.
  unfoldable pub sample_fields : PerfAbi → (SampleFlag → Bool) → ℕ → Option Fields
  sample_fields abi sample_type offset = in_order (field_blocks abi sample_type) (no_fields offset)
