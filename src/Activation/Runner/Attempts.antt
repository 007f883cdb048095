-- ===== src/Activation/Runner/Attempts.antt =====
-- The number of attempts of a task, however the runners take turns.
use osscdp.Prelude.{ℕ, ◌≡◌, Bool, some, List, [], get_elem?}
use osscdp.Activation.Breaker.{Breaker}
use osscdp.Activation.Service.{Send, Env, task_of, Destination}
use osscdp.Activation.Task.{Task, sending, create_task, claim_tasks}
use osscdp.Activation.Task.Bounded.{Bounded}
use osscdp.Activation.Runner.Count.{attempts_of, IsCounted}
use osscdp.Activation.Runner.{Delivery, Clock, Runner, World, process}

-- A history of enqueues, claims and attempts, in any order. The row of a task is `sending` between its
-- claim and the end of its attempt, and nothing else writes it then: a task is processed as its claim
-- returned it, once for every claim, or never, where its runner stops. The breaker is that of the
-- runner's process, in any state. The id of a new task is new, so no delivery has it.
pub data Reach : World → Type 0 where
  start :
      (destinations : List Destination) (b : Breaker)
      → Reach (record { destinations = destinations; tasks = []; deliveries = []; breaker = b })
  enqueued :
      {w : World} (env : Env) (s : Send) (subscription id : ℕ) (denied : Bool)
      → attempts_of id w.deliveries ≡ 0
      → Reach w
      → Reach (record w { tasks = (create_task (task_of env s subscription id denied) w.tasks).0 })
  took :
      {w : World} (now : ℕ) (chosen : Task → Bool)
      → Reach w
      → Reach (record w { tasks = claim_tasks now chosen w.tasks })
  processed :
      {w : World} (r : Runner) (b : Breaker) (clock : Clock) (jitter i : ℕ) (t : Task)
      → Reach w
      → get_elem? w.tasks i ≡ some t
      → t.status ≡ sending
      → Reach (process r clock jitter t (record w { breaker = b }))

-- The attempts of a task are counted, and there are not too many.
abbrev pub IsAccounted : List Delivery → Task → Type 0
IsAccounted ds t = Bounded t × IsCounted ds t
