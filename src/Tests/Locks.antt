-- ===== src/Tests/Locks.antt =====
-- Two calls on container 4 and one on container 5; the first has entered.
use sandbox_platform.Prelude.{ℕ, ◌*◌, ◌≤◌, ◌≡◌, ◌⊎◌, true, false, some, refl, arith, List, [], ◌∷◌}
use sandbox_platform.ContainerLock.{
  Phase, Locks, no_locks, with_container_lock, set_phase, may_enter, sweep,
}
use sandbox_platform.ContainerLock.Steps.{
  Move, enter, settle, release, call, turn, Reach, start, later, done, more,
}
use sandbox_platform.ContainerLock.Draining.{drains, CanMove, SweptBefore, NoEntry}
use sandbox_platform.ContainerLock.Queue.{queue, QueueStep, refines, runs_first}

abbrev called : Locks
called = with_container_lock 5 (with_container_lock 4 (with_container_lock 4 no_locks))

abbrev entered : Locks
entered = set_phase 0 Phase.running called

abbrev settled : Locks
settled = set_phase 0 Phase.settled entered

abbrev released : Locks
released = set_phase 0 Phase.released settled

called-Reach : Reach called
called-Reach = later (later (later start (call 4)) (call 4)) (call 5)

entering : Move called entered
unfolding with_container_lock may_enter
entering = enter 0 (omega arith) refl refl

settling : Move entered settled
unfolding with_container_lock
settling = settle 0 (omega arith) refl

releasing : Move settled released
unfolding with_container_lock
releasing = release 0 (omega arith) refl

settled-Reach : Reach settled
settled-Reach = later (later called-Reach (turn entering)) (turn settling)

-- The second call waits for the first, and then enters.
second_waits : may_enter entered 1 ≡ false
unfolding with_container_lock may_enter
second_waits = refl

second_enters : may_enter released 1 ≡ true
unfolding with_container_lock may_enter
second_enters = refl

queued : queue 4 settled ≡ 0 ∷ 1 ∷ []
unfolding with_container_lock
queued = refl

-- The entry of a job that is not the last stays, that of the last goes.
kept_entry : (sweep 0 released).tails 4 ≡ some 1
unfolding with_container_lock sweep
kept_entry = refl

refines_example : QueueStep (queue 4 settled) (queue 4 released)
refines_example = refines settled-Reach (turn releasing) 4

runs_first_example : (rest : List ℕ) × (queue ((settled.jobs 0).container) settled ≡ 0 ∷ rest)
unfolding with_container_lock
runs_first_example = runs_first settled-Reach 0 (omega arith) refl refl

drains_example :
    (2 ≤ 4 * called.count)
    × (CanMove settled ⊎ (SweptBefore settled settled.count × NoEntry settled))
drains_example = drains called-Reach (more (more done entering) settling)
