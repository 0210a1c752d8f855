-- ===== src/Report/Display.antt =====
-- What `displaySample` shows.
use node2x6x2b.Base.{
  ℕ, zero, suc, ◌+◌, ◌≤◌, ◌≡◌, arith, List, [], ◌∷◌, All, length, sum_below, sum_below-none,
  sum_below-add-one,
}
use node2x6x2b.Samples.{ThreadInfo, Globals}
use node2x6x2b.Samples.Thread.{Stored, virtual_address, addresses, Inv}
use node2x6x2b.Report.{AddressRow, address_rows, thread_rows, display_sample}

-- The sum of the `VFreq` column.
pub shown : List AddressRow → ℕ
shown [] = 0
shown (r ∷ rs) = r.vfreq + shown rs

address_rows-shown :
    (th : ThreadInfo) (left j n : ℕ)
    → j + left ≡ n
    → shown (address_rows th left j) + sum_below j th.virt.freq ≡ sum_below n th.virt.freq
unfolding address_rows shown
address_rows-shown th zero j n e = let e' : j ≡ n = omega arith in rw (← e') (omega arith)
address_rows-shown th (suc left) j n e =
    omega
      (arith, address_rows-shown th left (j + 1) n (omega arith), sum_below-add-one j th.virt.freq)

thread_rows-shown :
    {g : Globals} {stored : List Stored} (inv : Inv g stored) (left i : ℕ)
    → i + left ≤ g.thread_index
    → All
        (λ r. shown r.rows ≡ length (addresses virtual_address r.tid stored))
        (thread_rows g.threads left i)
unfolding thread_rows
thread_rows-shown inv zero i h = tt
thread_rows-shown {g} inv (suc left) i h = (
  omega (
    arith,
    address_rows-shown (g.threads i) (g.threads i).virt.mem_addr_index 0
        (g.threads i).virt.mem_addr_index (omega arith),
    sum_below-none (g.threads i).virt.freq,
    (inv.virt i (omega arith)).total,
  ),
  thread_rows-shown inv left (i + 1) (omega arith),
)

-- For each thread shown the frequencies of its addresses add up to the number of its samples.
display_sample-shown :
    (g : Globals) (stored : List Stored)
    → Inv g stored
    → All (λ r. shown r.rows ≡ length (addresses virtual_address r.tid stored)) (display_sample g)
unfolding display_sample
display_sample-shown g stored inv = thread_rows-shown inv g.thread_index 0 (omega arith)
