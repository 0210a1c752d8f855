-- ===== src/Tests/Buffers.antt =====
-- The circular buffer and the chain of buffers on concrete inputs.
use node2x6x2b.Base.{ℕ, ◌≡◌, refl, arith, List, [], ◌∷◌, ◌++◌}
use node2x6x2b.Circular.{BufferStruct, Request, insert, delete, main}
use node2x6x2b.Circular.Window.{Holds}
use node2x6x2b.Chain.{
  chain_max, Chain, create_threads, produce, give, produces, gives, Reach, starts, goes,
}
use node2x6x2b.Chain.Order.{value_list, chain_order}
use node2x6x2b.Circular.Queue.{queue_replies, main-queue}

-- What an uninitialised buffer may hold.
abbrev garbage : BufferStruct
garbage = record { buffer = λ i. i; rear = 77; front = 3 }

abbrev requests : List Request
requests = delete ∷ insert 8 ∷ insert 9 ∷ delete ∷ insert 5 ∷ delete ∷ []

main-queue_example : main requests garbage ≡ queue_replies requests []
main-queue_example = main-queue requests garbage

-- Two threads; the first one has put a value into its buffer.
abbrev after_gift : Chain
after_gift = give 0 7 (produce 7 (create_threads (λ i. garbage)))

gift_reached : Reach 2 after_gift
unfolding produce create_threads
gift_reached =
    goes (goes (starts (λ i. garbage)) (produces 7 (omega arith) refl))
      (gives 0 7 (omega arith) refl)

chain_order_example :
    (xs : List ℕ) × Holds chain_max (after_gift.buffers 0) xs
    × ((after_gift.threads 0).log
        ≡ (after_gift.threads 1).log ++ (value_list (after_gift.threads 1).held ++ xs))
chain_order_example = chain_order 0 gift_reached
