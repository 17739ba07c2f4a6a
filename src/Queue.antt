-- ===== src/Queue.antt =====
-- ml-platform/worker/crucible_worker/redis_queue.py: the reliable queue. The head of a list is its
-- left end: producers push there, and a claim takes from the right.
pub mod Order
use krmed_cloud_services.Base.{
  Text, ℕ, ◌+◌, ◌≡◌, Option, none, some, List, [], ◌∷◌, ◌++◌, remove_all, contains,
}
use krmed_cloud_services.Effects.{◌>>=◌, ◌>>◌, pure}
use krmed_cloud_services.World.{World, M, unsnoc, service, read, write}

-- BRPOPLPUSH jobs:queue jobs:processing timeout; `none` is the timeout, after `block` seconds on an
-- empty queue.
unfoldable pub move_last : ℕ → World → Option Text × World
unfolding unsnoc
move_last block w = elim (unsnoc w.queue) [
  | none ↦ (none, record w { now = w.now + block })
  | some (front, last) ↦ (some last, record w { queue = front; processing = last ∷ w.processing })
]

-- LREM jobs:processing 0 id
unfoldable pub drop_processing : Text → World → World
unfolding remove_all
drop_processing id w = record w { processing = remove_all id w.processing }

-- The pipeline of `requeue`: LREM jobs:processing 0 id; LPUSH jobs:queue id.
unfoldable pub push_back : Text → World → World
unfolding drop_processing
push_back id w = record w { processing = (drop_processing id w).processing; queue = id ∷ w.queue }

unfoldable pub claim : ℕ → M (Option Text)
claim block_seconds = service (move_last block_seconds)

unfoldable pub ack : Text → M (Unit {0})
ack job_id = service (write (drop_processing job_id))

unfoldable pub requeue : Text → M (Unit {0})
requeue job_id = service (write (push_back job_id))

-- The sets are lists here, asked only for membership.
unfoldable pub queued_ids : M (List Text)
queued_ids = service (read (λ w. w.queue))

unfoldable pub in_flight_ids : M (List Text)
in_flight_ids = service (read (λ w. w.processing))
