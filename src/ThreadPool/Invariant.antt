-- ===== src/ThreadPool/Invariant.antt =====
-- What holds of a pool and its threads in every state that they reach.
use egg.Base.{
  ℕ, ◌+◌, ◌-◌, ◌≤◌, ◌<◌, ◌≡◌, refl, ap, Bool, true, false, List, [], ◌∷◌, ◌++◌, append_assoc,
  length, length-append, if◌then◌else◌, arith, ◌==◌,
}
use egg.ThreadPool.{Work, add_loop, add_work, worker_round, drain_loop, destroy}
use egg.ThreadPool.System.{
  Stage, absent, draining, checking, joining, freed, System, init, after_add, after_round,
  after_destroy, after_call, Step, call, retry, round, done, call_destroy, recheck, announce, join,
  worker_wakes, adder_wakes, destroyer_wakes, Reach, here, later,
}

abbrev pub is_closing : Stage → Bool
is_closing absent = false
is_closing _ = true

abbrev pub is_down : Stage → Bool
is_down absent = false
is_down draining = false
is_down checking = false
is_down _ = true

abbrev pub is_announced : Stage → Bool
is_announced joining = true
is_announced freed = true
is_announced _ = false

pub record Inv (s : System) : Type 0 where
  pub size : s.pool.cur_queue_size ≡ length s.pool.queue
  pub room : length s.pool.queue ≤ s.pool.max_queue_size
  pub history : s.accepted ≡ s.taken ++ s.pool.queue
  pub closed : s.pool.queue_closed ≡ is_closing s.stage
  pub down : s.pool.shutdown ≡ is_down s.stage
  -- No wake-up is lost: a worker waits for items only where there are none, a caller for room only
  -- where the queue is full, the destroyer only for items that are there.
  pub asleep_idle : 0 < s.asleep → (s.pool.cur_queue_size ≡ 0) × (is_announced s.stage ≡ false)
  pub blocked_full :
      0 < length s.blocked
      → (s.pool.cur_queue_size ≡ s.pool.max_queue_size)
        × (s.pool.do_not_block_when_full ≡ false)
        × (is_announced s.stage ≡ false)
  pub woken_blocks : 0 < length s.woken → s.pool.do_not_block_when_full ≡ false
  pub draining_busy : s.stage ≡ draining → 0 < s.pool.cur_queue_size
  pub threads : s.looking + s.asleep + length s.busy + s.exited ≡ s.pool.num_threads
  pub exited_down : 0 < s.exited → is_down s.stage ≡ true
  pub freed_exited : s.stage ≡ freed → s.exited ≡ s.pool.num_threads
  pub finished : s.finish ≡ true → is_down s.stage ≡ true → s.pool.cur_queue_size ≡ 0
  pub sound : s.crashed ≡ false

pub init-Inv : (threads most : ℕ) (no_block : Bool) → Inv (init threads most no_block)
init-Inv threads most no_block = ground arith

-- A caller gets to the loop of `eggThreadPool_add_work` with a full queue only where it may wait.
add_loop-Inv :
    (s : System) (w : Work)
    → (s.pool.cur_queue_size ≡ s.pool.max_queue_size → s.pool.do_not_block_when_full ≡ false)
    → Inv s
    → Inv (after_add s w (add_loop s.pool w))
add_loop-Inv s w may h =
    ground (arith, length-append s.pool.queue (w ∷ []), append_assoc s.taken s.pool.queue (w ∷ []))

add_work-Inv : (s : System) (w : Work) → Inv s → Inv (after_add s w (add_work s.pool w))
add_work-Inv s w h =
    ground (arith, length-append s.pool.queue (w ∷ []), append_assoc s.taken s.pool.queue (w ∷ []))

-- A caller that is awake leaves the others as they are.
pub unwoken-Inv :
    (s : System) (front : List Work) (w : Work) (back : List Work)
    → s.woken ≡ front ++ (w ∷ back)
    → Inv s
    → Inv (record s { woken = front ++ back })
unwoken-Inv s front w back e h =
    ground (arith, ap length e, length-append front (w ∷ back), length-append front back)

retry-Inv :
    (s : System) (front : List Work) (w : Work) (back : List Work)
    → s.woken ≡ front ++ (w ∷ back)
    → Inv s
    → Inv (after_add (record s { woken = front ++ back }) w (add_loop s.pool w))
retry-Inv s front w back e h =
    add_loop-Inv (record s { woken = front ++ back }) w
      (λ _. h.woken_blocks (omega (arith, ap length e, length-append front (w ∷ back))))
      (unwoken-Inv s front w back e h)

-- The links of the queue are those of the list, also when it gets empty.
pub rest_of_queue :
    (size : ℕ) (next : List Work) → size ≡ length next → (if size == 0 then [] else next) ≡ next
rest_of_queue size [] e = ground arith
rest_of_queue size (w ∷ next) e = ground arith

round_on :
    (s : System) (queue : List Work)
    → s.pool.queue ≡ queue
    → 0 < s.looking
    → Inv s
    → Inv (after_round s (worker_round s.pool))
round_on s [] e l h = ground arith
round_on s (w ∷ next) e l h = ground (
  arith,
  append_assoc s.taken (w ∷ []) next,
  length-append s.blocked s.woken,
  rest_of_queue (s.pool.cur_queue_size - 1) next,
)

done-Inv :
    (s : System) (front : List Work) (w : Work) (back : List Work)
    → s.busy ≡ front ++ (w ∷ back)
    → Inv s
    → Inv (record s { busy = front ++ back; looking = s.looking + 1 })
done-Inv s front w back e h =
    ground (arith, ap length e, length-append front (w ∷ back), length-append front back)

call_destroy-Inv :
    (s : System) (finish : Bool) → Inv s → Inv (after_call s finish (destroy s.pool finish))
call_destroy-Inv s finish h = ground arith

recheck-Inv : (s : System) → s.stage ≡ checking → Inv s → Inv (after_destroy s (drain_loop s.pool))
recheck-Inv s e h = ground arith

adder_wakes-Inv :
    (s : System) (front : List Work) (w : Work) (back : List Work)
    → s.blocked ≡ front ++ (w ∷ back)
    → Inv s
    → Inv (record s { blocked = front ++ back; woken = w ∷ s.woken })
adder_wakes-Inv s front w back e h =
    ground (arith, ap length e, length-append front (w ∷ back), length-append front back)

pub Step-Inv : {s t : System} → Step s t → Inv s → Inv t
Step-Inv (call s w live) h = add_work-Inv s w h
Step-Inv (retry s front w back live e) h = retry-Inv s front w back e h
Step-Inv (round s l) h = round_on s s.pool.queue refl l h
Step-Inv (done s front w back e) h = done-Inv s front w back e h
Step-Inv (call_destroy s finish live) h = call_destroy-Inv s finish h
Step-Inv (recheck s e) h = recheck-Inv s e h
Step-Inv (announce s e) h = ground (arith, length-append s.blocked s.woken)
Step-Inv (join s e all) h = ground arith
Step-Inv (worker_wakes s a) h = ground arith
Step-Inv (adder_wakes s front w back e) h = adder_wakes-Inv s front w back e h
Step-Inv (destroyer_wakes s e) h = ground arith

pub Reach-Inv : {s t : System} → Inv s → Reach s t → Inv t
Reach-Inv h here = h
Reach-Inv h (later r step) = Step-Inv step (Reach-Inv h r)
