-- ===== src/Circular.antt =====
-- Microbench/CircularBuffer.c: a bounded FIFO in an array, and `main`, which tries it.
-- `front` and `rear` are kept as one more than in the source: 0 is its -1. The values are not negative,
-- so that the -1 of `delete_from_buffer` is `none`.
pub mod Window
pub mod Queue
use node2x6x2b.Base.{
  ℕ, zero, suc, ◌+◌, ◌-◌, Bool, true, false, ◌&&◌, not, Option, none, some, List, [], ◌∷◌, ◌==◌,
  if◌then◌else◌, update,
}

-- `#define MAX 10`; the operations take the length of the array as an argument.
abbrev pub buffer_max : ℕ
buffer_max = 10

pub record BufferStruct : Type 0 where
  pub buffer : ℕ → ℕ
  pub rear : ℕ
  pub front : ℕ

unfoldable pub initialize_buffer : BufferStruct → BufferStruct
initialize_buffer buf = record buf { rear = 0; front = 0 }

-- The buffer after a call, and the result of the call.
pub record Inserted : Type 0 where
  pub buf : BufferStruct
  pub result : ℕ

pub record Deleted : Type 0 where
  pub buf : BufferStruct
  pub result : Option ℕ

-- `buf->buffer[buf->rear]=val; return 1;`
abbrev pub put : BufferStruct → ℕ → Inserted
put buf val = record {
  buf = record buf { buffer = update buf.buffer (buf.rear - 1) val };
  result = 1;
}

module _ (max : ℕ) where
  unfoldable pub insert_into_buffer : BufferStruct → ℕ → Inserted
  insert_into_buffer buf val =
      if buf.rear == max && buf.front == 1
      then record { buf = buf; result = 0 }
      else (if buf.rear + 1 == buf.front
          then record { buf = buf; result = 0 }
          else (if buf.rear == 0 && buf.front == 0
              then put (record buf { rear = 1; front = 1 }) val
              else (if buf.rear == max && not (buf.front == 1)
                  then put (record buf { rear = 1 }) val
                  else put (record buf { rear = buf.rear + 1 }) val)))

  unfoldable pub delete_from_buffer : BufferStruct → Deleted
  delete_from_buffer buf =
      if buf.front == 0 && buf.rear == 0
      then record { buf = buf; result = none }
      else (let e = buf.buffer (buf.front - 1) in
          if buf.front == buf.rear
          then record { buf = record buf { front = 0; rear = 0 }; result = some e }
          else (if buf.front == max && not (buf.rear == max)
              then record { buf = record buf { front = 1 }; result = some e }
              else record { buf = record buf { front = buf.front + 1 }; result = some e }))

-- What the random numbers of a round ask for, and what comes back.
pub data Request : Type 0 where
  insert : ℕ → Request
  delete : Request

pub data Reply : Type 0 where
  inserted : ℕ → Reply
  deleted : Option ℕ → Reply

-- `while(count<100)`, with a request for each round.
unfoldable pub rounds : List Request → BufferStruct → List Reply
rounds [] buf = []
rounds (insert e ∷ rest) buf =
    let r = insert_into_buffer buffer_max buf e in Reply.inserted r.result ∷ rounds rest r.buf
rounds (delete ∷ rest) buf =
    let r = delete_from_buffer buffer_max buf in Reply.deleted r.result ∷ rounds rest r.buf

unfoldable pub main : List Request → BufferStruct → List Reply
main requests s = rounds requests (initialize_buffer s)
