-- ===== src/RadioManager.antt =====
-- radio-io/src/radio_manager/lifecycle.rs: who holds a managed radio, and how the last holder shuts
-- it down. The manager is looked at for one radio id, with the tasks that call `acquire` and
-- `release` for it. A step is what a task does up to its next `await`: the section under the lock of
-- the slots, the creation of the `Notified` future, or `notify_waiters`. `notified()` hears only of
-- a `notify_waiters` that comes after it. The radio's own task and the checks of devices are not
-- looked at: they touch no slot.
use log.Base.{
  ℕ, zero, suc, ◌-◌, Bool, true, false, Option, none, some, List, [], ◌∷◌, map, set, get_elem?,
  ◌==◌, if◌then◌else◌,
}
pub mod Counts
pub mod Refcount
pub mod Waiting

-- No slot, or one of the two kinds of slots. A `Notify` is a number.
pub data ManagedRadioSlot : Type 0 where
  vacant : ManagedRadioSlot
  active : ℕ → ManagedRadioSlot
  shutting_down : ℕ → ManagedRadioSlot

-- Where a task is. `looking` is the top of the loop of `acquire`; `cloned` has the `done` of a slot
-- and is about to call `notified()`, `waiting` awaits it; `validating` found no slot, and is before
-- the second look; `holding` has its handle and will call `release`; `stopping` is the release of the
-- last handle, up to `notify_waiters`; `notified` is before the removal of the slot; `finished` has returned.
pub data Task : Type 0 where
  looking validating holding notified finished : Task
  cloned waiting stopping : ℕ → Task

-- What a task's step leaves: the slot, the next unused `Notify`, the task, and the `Notify` that told its
-- waiters, if one did.
pub record Moved : Type 0 where
  pub slot : ManagedRadioSlot
  pub fresh : ℕ
  pub task : Task
  pub told : Option ℕ

abbrev pub moved : ManagedRadioSlot → ℕ → Task → Moved
moved slot fresh task = record { slot = slot; fresh = fresh; task = task; told = none }

-- A look at the slot in `acquire`: what it does with none is told apart.
abbrev pub look : Moved → ManagedRadioSlot → ℕ → Moved
look if_vacant vacant fresh = if_vacant
look if_vacant (active refcount) fresh = moved (active (suc refcount)) fresh holding
look if_vacant (shutting_down done) fresh = moved (shutting_down done) fresh (cloned done)

-- The section of `release` under the lock.
abbrev pub begin_release : ManagedRadioSlot → ℕ → Moved
begin_release vacant fresh = moved vacant fresh finished
begin_release (active refcount) fresh =
    if refcount - 1 == 0
    then moved (shutting_down fresh) (suc fresh) (stopping fresh)
    else moved (active (refcount - 1)) fresh finished
begin_release (shutting_down done) fresh = moved (shutting_down done) fresh finished

abbrev pub remove_slot : ManagedRadioSlot → ManagedRadioSlot
remove_slot vacant = vacant
remove_slot (active refcount) = active refcount
remove_slot (shutting_down done) = vacant

unfoldable pub advance : ManagedRadioSlot → ℕ → Task → Moved
advance slot fresh looking = look (moved slot fresh validating) slot fresh
advance slot fresh validating = look (moved (active 1) fresh holding) slot fresh
advance slot fresh holding = begin_release slot fresh
advance slot fresh notified = moved (remove_slot slot) fresh finished
advance slot fresh finished = moved slot fresh finished
advance slot fresh (cloned done) = moved slot fresh (waiting done)
advance slot fresh (waiting done) = moved slot fresh (waiting done)
advance slot fresh (stopping done) = record {
  slot = slot;
  fresh = fresh;
  task = notified;
  told = some done;
}

-- A task that awaits the `Notify` goes back to the top of the loop.
abbrev pub wake : Option ℕ → Task → Task
wake (some told) (waiting done) = if told == done then looking else waiting done
wake _ task = task

pub record RadioManager : Type 0 where
  pub slot : ManagedRadioSlot
  pub fresh : ℕ
  pub tasks : List Task

abbrev pub after : RadioManager → ℕ → Option Task → RadioManager
after manager i none = manager
after manager i (some task) =
    let m = advance manager.slot manager.fresh task in
    record {
      slot = m.slot;
      fresh = m.fresh;
      tasks = set (map (wake m.told) manager.tasks) i m.task;
    }

-- A step of the task with this number.
unfoldable pub step : RadioManager → ℕ → RadioManager
unfolding advance
step manager i = after manager i (get_elem? manager.tasks i)

-- The states that the steps of tasks lead to, in any order.
pub data Steps (start : RadioManager) : RadioManager → Type 0 where
  here : Steps start start
  further : {manager : RadioManager} → Steps start manager → (i : ℕ) → Steps start (step manager i)
