-- ===== src/ThreadPool/Runs.antt =====
-- The theorems at a concrete run: one item is queued, then the pool is destroyed with `finish`.
use egg.Base.{refl, true, false, arith, ◌≡◌}
use egg.ThreadPool.{Work, add_work, worker_round, drain_loop, destroy}
use egg.ThreadPool.System.{
  System, init, after_add, after_round, after_destroy, after_call, Step, call, round, call_destroy,
  recheck, Reach, here, later,
}
use egg.ThreadPool.Invariant.{Inv}
use egg.ThreadPool.Closing.{pool_invariant, finish_takes_all}
use egg.ThreadPool.Ends.{CanEnd, destroy_ends}
use egg.ThreadPool.Fifo.{Moves, view, Step-refines}

abbrev item : Work
item = record { routine = 4096; arg = 7 }

abbrev fresh : System
fresh = init 2 1 false

abbrev one_queued : System
one_queued = after_add fresh item (add_work fresh.pool item)

abbrev closing : System
closing = after_call one_queued true (destroy one_queued.pool true)

abbrev drained : System
drained = after_round closing (worker_round closing.pool)

abbrev down : System
down = after_destroy drained (drain_loop drained.pool)

reach_queued : Reach fresh one_queued
reach_queued = later here (call fresh item (ground arith))

last_round : Step closing drained
last_round = round closing (omega arith)

reach_closing : Reach fresh closing
reach_closing = later reach_queued (call_destroy one_queued true (ground arith))

closing-down : Reach closing down
closing-down = later (later here last_round) (recheck drained refl)

reach_down : Reach fresh down
reach_down = later (later reach_closing last_round) (recheck drained refl)

pool_invariant_example : Inv down
pool_invariant_example = pool_invariant 2 1 false down reach_down

finish_takes_all_example : down.taken ≡ down.accepted
finish_takes_all_example = finish_takes_all 2 1 false down reach_down refl refl

destroy_ends_example : CanEnd closing
destroy_ends_example = destroy_ends 2 1 false closing reach_closing (omega arith) refl

Step-refines_example : Moves 1 (view closing) (view drained)
Step-refines_example = Step-refines 2 1 false closing drained reach_closing last_round
