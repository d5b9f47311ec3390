-- ===== src/Orchestrator/Supervisor.antt =====
-- `Orchestrator._supervised_run` of src/pg_replica/orchestrator.py as a state machine. Time is in
-- milliseconds; a sleep of 2.0 seconds lasts 2000 at least.
use postgres_search_replica.Prelude.{ℕ, ◌+◌, ◌*◌, ◌≤◌, ◌≡◌, Bool, true, false, arith}

-- where the coroutine stands
pub data Phase : Type 0 where
  checking running sleeping stopped : Phase

-- `asked` is the stop event; `starts` and `crashes` count the calls of `worker.run()` and the exceptions
-- that the handlers caught, a CancelledError apart.
pub record Supervision : Type 0 where
  pub phase : Phase
  pub asked : Bool
  pub starts : ℕ
  pub crashes : ℕ
  pub now : ℕ

abbrev pub begin : Supervision
begin = record { phase = checking; asked = false; starts = 0; crashes = 0; now = 0 }

abbrev crash : Supervision → Supervision
crash s = record s { phase = sleeping; crashes = s.crashes + 1 }

pub data Step (s : Supervision) : Supervision → Type 0 where
  -- `while not self._stop_event.is_set()`
  leave : s.phase ≡ checking → s.asked ≡ true → Step s (record s { phase = stopped })
  start :
      s.phase ≡ checking
      → s.asked ≡ false
      → Step s (record s { phase = running; starts = s.starts + 1 })
  -- the factory raises
  no_worker : s.phase ≡ checking → s.asked ≡ false → Step s (crash s)
  -- a CancelledError, whether the task was cancelled or the worker raised it, ends the loop
  cancel_start : s.phase ≡ checking → s.asked ≡ false → Step s (record s { phase = stopped })
  -- the worker returns, ends by a CancelledError, or raises; a foreign key violation is handled alike
  returns : s.phase ≡ running → Step s (record s { phase = checking })
  cancel_run : s.phase ≡ running → Step s (record s { phase = stopped })
  raises : s.phase ≡ running → Step s (crash s)
  -- `await asyncio.sleep(2.0)`
  wakes :
      (time : ℕ)
      → s.phase ≡ sleeping
      → 2000 ≤ time
      → Step s (record s { phase = checking; now = s.now + time })
  cancel_sleep : s.phase ≡ sleeping → Step s (record s { phase = stopped })
  -- the orchestrator sets the stop event, and a worker takes its time
  ask : Step s (record s { asked = true })
  works : (time : ℕ) → s.phase ≡ running → Step s (record s { now = s.now + time })

pub data Reach : Supervision → Type 0 where
  here : Reach begin
  next : {s t : Supervision} → Reach s → Step s t → Reach t

-- a crash that is slept off has cost its two seconds
abbrev owed : Phase → ℕ
owed sleeping = 2000
owed checking = 0
owed running = 0
owed stopped = 2000

record Inv (s : Supervision) : Type 0 where
  slow : 2000 * s.crashes ≤ s.now + owed s.phase

Step-Inv : {s t : Supervision} → Step s t → Inv s → Inv t
Step-Inv (leave p a) v = record { slow = ground (arith, v.slow, p) }
Step-Inv (start p a) v = record { slow = ground (arith, v.slow, p) }
Step-Inv (no_worker p a) v = record { slow = ground (arith, v.slow, p) }
Step-Inv (cancel_start p a) v = record { slow = ground (arith, v.slow, p) }
Step-Inv (returns p) v = record { slow = ground (arith, v.slow, p) }
Step-Inv (cancel_run p) v = record { slow = ground (arith, v.slow, p) }
Step-Inv (raises p) v = record { slow = ground (arith, v.slow, p) }
Step-Inv (wakes time p long) v = record { slow = ground (arith, v.slow, p) }
Step-Inv (cancel_sleep p) v = record { slow = ground (arith, v.slow, p) }
Step-Inv ask v = record { slow = v.slow }
Step-Inv {s} (works time p) v = record { slow = omega (arith, v.slow) }

Reach-Inv : {s : Supervision} → Reach s → Inv s
Reach-Inv here = record { slow = omega arith }
Reach-Inv (next r st) = Step-Inv st (Reach-Inv r)

-- A worker that crashes is restarted after two seconds at the earliest: however it behaves, the
-- crashes that have been caught are at most one for each two seconds that have passed, and one more.
pub crashes-bounded : {s : Supervision} → Reach s → 2000 * s.crashes ≤ s.now + 2000
crashes-bounded {s} r = go s.phase (Reach-Inv r).slow
  where
    go : (p : Phase) → 2000 * s.crashes ≤ s.now + owed p → 2000 * s.crashes ≤ s.now + 2000
    go checking h = omega (arith, h)
    go running h = omega (arith, h)
    go sleeping h = h
    go stopped h = h
