-- ===== src/Net/Workers/Tests.antt =====
-- A PacketDispatcher of src/net/worker_pool.cpp with two threads, and what the theorems say of it.
use gameserver_hide.Base.{ℕ, ◌⊎◌, ◌≤◌, ◌≡◌, refl, true, [], ◌∷◌, ◌++◌, length, arith}
use gameserver_hide.Net.Workers.{
  drop_newest, Config, is_full, push, pop, stop_queue, Dispatcher, Works, started, dispatched,
  Reaches, here, next, enqueued, stopping,
}
use gameserver_hide.Net.Workers.Order.{Reaches-accepted}
use gameserver_hide.Net.Workers.Shutdown.{
  steps_left, IsWoundUp, Chain, empty, longer, Chain-drained,
}

abbrev config : Config
config = record { capacity = 1; overflow_policy = drop_newest }

abbrev fresh : Dispatcher ℕ
fresh = started 2 true config

-- The job 7 waits in the queue.
abbrev waiting : Dispatcher ℕ
waiting = record fresh { queue = record fresh.queue { queue = 7 ∷ [] }; accepted = 7 ∷ [] }

abbrev closing : Dispatcher ℕ
closing = record waiting { queue = stop_queue waiting.queue }

-- The dispatcher's thread has given it to the pool.
abbrev handed : Dispatcher ℕ
handed = record closing { queue = record closing.queue { queue = [] }; jobs = 7 ∷ [] }

waiting_reached : Reaches fresh waiting
unfolding push is_full
waiting_reached = next fresh waiting here (enqueued fresh 7 waiting.queue true refl)

closing_reached : Reaches fresh closing
closing_reached = next waiting closing waiting_reached (stopping waiting)

handed-Chain : Chain closing 1 handed
unfolding pop
handed-Chain = longer 0 closing handed empty (dispatched closing 7 handed.queue refl refl)

Reaches-accepted_example :
    (waiting.accepted ≡ waiting.begun ++ (waiting.jobs ++ waiting.queue.queue))
    × ((config.capacity ≡ 0) ⊎ (length waiting.queue.queue ≤ config.capacity))
Reaches-accepted_example = Reaches-accepted 2 config waiting (λ p. ground arith) waiting_reached

Chain-drained_example :
    (1 ≤ steps_left closing)
    × (((d : Dispatcher ℕ) × Works handed d)
        ⊎ ((handed.accepted ≡ closing.accepted) × IsWoundUp handed))
Chain-drained_example =
    Chain-drained 1 config closing handed 1 (λ p. ground arith) closing_reached refl refl
      handed-Chain
