-- ===== src/Cache/Tests.antt =====
-- Runs of the caches on a few keys.
use matrixcube.Prelude.{ℕ, ◌≡◌, some, List, [], ◌∷◌, arith}
use matrixcube.Cache.Lru.{new_lru}
use matrixcube.Cache.Lru.Laws.{IsLru}
use matrixcube.Cache.Lru.Runs.{Op, op_put, op_get, op_remove, run, new_lru-run-IsLru}
use matrixcube.Cache.TwoQueue.{new_two_queue, two_queue_put, two_queue_peek}
use matrixcube.Cache.TwoQueue.Laws.{IsTwoQueue}
use matrixcube.Cache.TwoQueue.Calls.{two_queue_run, new_two_queue-run-IsTwoQueue}
use matrixcube.Cache.TwoQueue.Lookup.{two_queue_peek-two_queue_put}

abbrev calls : List (Op ℕ)
calls = op_put 1 10 ∷ op_put 2 20 ∷ op_get 1 ∷ op_put 3 30 ∷ op_remove 2 ∷ op_put 1 11 ∷ []

new_lru-run-IsLru_example : IsLru (run (new_lru 2) calls)
new_lru-run-IsLru_example = new_lru-run-IsLru 2 calls

new_two_queue-run-IsTwoQueue_example : IsTwoQueue (two_queue_run (new_two_queue 4) calls)
new_two_queue-run-IsTwoQueue_example = new_two_queue-run-IsTwoQueue 4 calls (omega arith)

two_queue_peek-two_queue_put_example :
    two_queue_peek (two_queue_put (two_queue_run (new_two_queue 4) calls) 2 22) 2 ≡ some 22
two_queue_peek-two_queue_put_example =
    two_queue_peek-two_queue_put (two_queue_run (new_two_queue 4) calls) 2 22
      (new_two_queue-run-IsTwoQueue 4 calls (omega arith))
