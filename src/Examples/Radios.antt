-- ===== src/Examples/Radios.antt =====
-- The tasks of one radio: a release of the last handle, and an `acquire` that comes in between.
use log.Base.{ℕ, ◌≡◌, refl, some, [], ◌∷◌, arith, get_elem?}
use log.RadioManager.{
  ManagedRadioSlot, vacant, active, shutting_down, Task, looking, holding, waiting, RadioManager,
  step, Steps, here, further,
}
use log.RadioManager.Refcount.{IsCounted, steps-IsCounted}
use log.RadioManager.Waiting.{waits_forever, shutdown_ends}

-- One holder, and a task that begins to acquire.
abbrev one_holder : RadioManager
one_holder = record { slot = active 1; fresh = 0; tasks = holding ∷ looking ∷ [] }

-- The release begins; the other task takes the `done` of the slot; the release tells its waiters, of
-- which there are none yet; the other task waits.
abbrev missed : Steps one_holder (step (step (step (step one_holder 0) 1) 0) 1)
missed = further (further (further (further here 0) 1) 0) 1

-- The slot is then taken away, and the task still waits.
missed_test :
    step (step (step (step (step one_holder 0) 1) 0) 1) 0
    ≡ record { slot = vacant; fresh = 1; tasks = Task.finished ∷ waiting 0 ∷ [] }
unfolding step log.RadioManager.advance
missed_test = refl

waits_forever_example :
    get_elem? (step (step (step (step (step one_holder 0) 1) 0) 1) 0).tasks 1 ≡ some (waiting 0)
unfolding step log.RadioManager.advance
waits_forever_example =
    waits_forever (step (step (step (step one_holder 0) 1) 0) 1)
      (step (step (step (step (step one_holder 0) 1) 0) 1) 0) 1 0 (omega arith) refl refl
      (further here 0)

steps-IsCounted_example : IsCounted (step (step (step (step one_holder 0) 1) 0) 1)
steps-IsCounted_example =
    steps-IsCounted one_holder (step (step (step (step one_holder 0) 1) 0) 1)
      (refl, omega arith, refl) missed

shutdown_ends_example : (i : ℕ) × ((step (step (step (step one_holder 0) 1) i) i).slot ≡ vacant)
unfolding step log.RadioManager.advance
shutdown_ends_example =
    shutdown_ends one_holder (step (step one_holder 0) 1) 0 (refl, omega arith, refl)
      (further (further here 0) 1) refl
