-- ===== src/Perf/Layout.antt =====
-- The walk over a buffer that holds whole records: every sample is stored, in order, and nothing else.
use node2x6x2b.Base.{ℕ, ◌+◌, ◌≤◌, ◌≡◌, arith, some}
use node2x6x2b.Samples.{Sample}
use node2x6x2b.Perf.Abi.{PerfAbi}
use node2x6x2b.Perf.Fields.{
  Buffer, Fields, int_at, long_at, copy_int, copy_long, sample_fields, ip_field, tid_field,
  addr_field, cpu_field, period_field, weight_field, data_src_field,
}
use node2x6x2b.Perf.Ring.{hitm_sample_type}

-- The sample of a record at `pos`, as the kernel lays it out for these flags.
abbrev pub sample_at : Buffer → ℕ → Sample
sample_at b pos = record {
  pid = int_at b.bytes (pos + 16);
  tid = int_at b.bytes (pos + 20);
  addr = long_at b.bytes (pos + 24);
  cpu = int_at b.bytes (pos + 32);
}

-- The fields of a record at `pos`, with the offsets summed up as the code does.
abbrev fields_at : Buffer → ℕ → Fields
fields_at b pos = record {
  offset = pos + 8 + 8 + 8 + 8 + 8 + 8 + 8 + 8;
  ip = long_at b.bytes (pos + 8);
  pid = int_at b.bytes (pos + 8 + 8);
  tid = int_at b.bytes (pos + 8 + 8 + 4);
  time = 0;
  addr = long_at b.bytes (pos + 8 + 8 + 8);
  id = 0;
  stream_id = 0;
  cpu = int_at b.bytes (pos + 8 + 8 + 8 + 8);
  res = int_at b.bytes (pos + 8 + 8 + 8 + 8 + 4);
  period = long_at b.bytes (pos + 8 + 8 + 8 + 8 + 8);
  weight = long_at b.bytes (pos + 8 + 8 + 8 + 8 + 8 + 8);
  data_src = long_at b.bytes (pos + 8 + 8 + 8 + 8 + 8 + 8 + 8);
}

copy_int-inside :
    (b : Buffer) (at : ℕ) → at + 4 ≤ b.bytesize → copy_int b at ≡ some (int_at b.bytes at)
unfolding copy_int
copy_int-inside b at h = ground arith

pub copy_long-inside :
    (b : Buffer) (at : ℕ) → at + 8 ≤ b.bytesize → copy_long b at ≡ some (long_at b.bytes at)
unfolding copy_long
copy_long-inside b at h = ground arith

-- Behind the header a sample takes 56 bytes.
pub sample_fields-hitm :
    (b : Buffer) (abi : PerfAbi) (pos : ℕ)
    → pos + 64 ≤ b.bytesize
    → sample_fields b abi hitm_sample_type (pos + 8) ≡ some (fields_at b pos)
unfolding sample_fields hitm_sample_type ip_field tid_field addr_field cpu_field period_field
    weight_field data_src_field
sample_fields-hitm b abi pos fits = rw (
  copy_long-inside b (pos + 8) (omega arith),
  copy_int-inside b (pos + 8 + 8) (omega arith),
  copy_int-inside b (pos + 8 + 8 + 4) (omega arith),
  copy_long-inside b (pos + 8 + 8 + 8) (omega arith),
  copy_int-inside b (pos + 8 + 8 + 8 + 8) (omega arith),
  copy_int-inside b (pos + 8 + 8 + 8 + 8 + 4) (omega arith),
  copy_long-inside b (pos + 8 + 8 + 8 + 8 + 8) (omega arith),
  copy_long-inside b (pos + 8 + 8 + 8 + 8 + 8 + 8) (omega arith),
  copy_long-inside b (pos + 8 + 8 + 8 + 8 + 8 + 8 + 8) (omega arith),
)

pub sample_of-fields_at :
    (b : Buffer) (pos : ℕ)
    → let f = fields_at b pos in
      record { pid = f.pid; tid = f.tid; addr = f.addr; cpu = f.cpu } ≡ sample_at b pos
sample_of-fields_at b pos =
    let p16 : pos + 8 + 8 ≡ pos + 16 = omega arith in
    let p20 : pos + 16 + 4 ≡ pos + 20 = omega arith in
    let p24 : pos + 16 + 8 ≡ pos + 24 = omega arith in
    let p32 : pos + 24 + 8 ≡ pos + 32 = omega arith in rw (p16, p20, p24, p32)
