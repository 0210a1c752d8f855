-- ===== src/Chain.antt =====
-- Microbench/ProducerConsumerBenchMark.c: threads in a chain, each taking values out of the buffer of the
-- one before it and putting them into its own. The buffers are circular ones of `MAX` values with a lock,
-- which each operation holds from its start to its end: a step of a thread is one operation, the copy
-- of its result into a local variable included.
pub mod Order
use node2x6x2b.Base.{
  ℕ, zero, suc, ◌+◌, ◌-◌, ◌<◌, ◌≡◌, ◌≢◌, Bool, Option, none, some, List, [], ◌∷◌, ◌++◌, ◌==◌,
  if◌then◌else◌, update,
}
use node2x6x2b.Circular.{
  BufferStruct, initialize_buffer, Inserted, insert_into_buffer, Deleted, delete_from_buffer,
}

-- `#define MAX 100`
abbrev pub chain_max : ℕ
chain_max = 100

-- `delete_from_buffer` and `insert_into_buffer` of this program, which do between `pthread_mutex_lock` and
-- `pthread_mutex_unlock` what those of the circular buffer do.
abbrev delete_locked : BufferStruct → Deleted
delete_locked buf = delete_from_buffer chain_max buf

abbrev insert_locked : BufferStruct → ℕ → Inserted
insert_locked buf value = insert_into_buffer chain_max buf value

-- The local variables of `ProducerConsumer`: `count`, and `produced_value` or `ret_val` while it has a value
-- that is not in the consumer buffer yet. `log` lists the values that the thread has put there; the
-- program does not keep it.
pub record Thread : Type 0 where
  pub count : ℕ
  pub held : Option ℕ
  pub log : List ℕ

-- `PC[i]` is the consumer buffer of thread `i` and the producer buffer of thread `i + 1`.
pub record Chain : Type 0 where
  pub buffers : ℕ → BufferStruct
  pub threads : ℕ → Thread

-- What `create_threads` sets up, and each thread's `int count=100;`.
unfoldable pub create_threads : (ℕ → BufferStruct) → Chain
create_threads garbage = record {
  buffers = λ i. initialize_buffer (garbage i);
  threads = λ i. record { count = 100; held = none; log = [] };
}

-- `count--; int produced_value=rand()%100;` of thread 0
unfoldable pub produce : ℕ → Chain → Chain
produce value s =
    let th = s.threads 0 in
    record s {
      threads = update s.threads 0 (record th { count = th.count - 1; held = some value });
    }

-- A round of `do { ret_val=delete_from_buffer(arg->Producer); } while(ret_val==-1);` of thread `i + 1`.
-- The loop goes on where the buffer was empty; `count--` is counted here when it ends.
abbrev pub taken : ℕ → Chain → BufferStruct → Option ℕ → Chain
taken i s buf none = record s { buffers = update s.buffers i buf }
taken i s buf (some value) =
    let th = s.threads (i + 1) in
    record {
      buffers = update s.buffers i buf;
      threads = update s.threads (i + 1) (record th { count = th.count - 1; held = some value });
    }

unfoldable pub take : ℕ → Chain → Chain
take i s = let r = delete_locked (s.buffers i) in taken i s r.buf r.result

-- A round of `do { ret=insert_into_buffer(arg->Consumer,…); } while(ret==0);` of thread `i`.
abbrev pub given : ℕ → ℕ → Chain → Inserted → Chain
given i value s r =
    let th = s.threads i in
    record {
      buffers = update s.buffers i r.buf;
      threads =
          update s.threads i
            (if r.result == 0 then th else record th { held = none; log = th.log ++ value ∷ [] });
    }

unfoldable pub give : ℕ → ℕ → Chain → Chain
give i value s = given i value s (insert_locked (s.buffers i) value)

-- The steps of `n` threads, in whichever order they come.
pub data Step (n : ℕ) (s : Chain) : Chain → Type 0 where
  produces :
      (value : ℕ) → 0 < (s.threads 0).count → (s.threads 0).held ≡ none → Step n s (produce value s)
  takes :
      (i : ℕ)
      → i + 1 < n
      → 0 < (s.threads (i + 1)).count
      → (s.threads (i + 1)).held ≡ none
      → Step n s (take i s)
  gives : (i value : ℕ) → i < n → (s.threads i).held ≡ some value → Step n s (give i value s)

pub data Reach (n : ℕ) : Chain → Type 0 where
  starts : (garbage : ℕ → BufferStruct) → Reach n (create_threads garbage)
  goes : {s t : Chain} → Reach n s → Step n s t → Reach n t
