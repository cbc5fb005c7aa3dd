-- ===== src/RadioManager/Refcount.antt =====
-- The count of references of a managed radio (radio-io/src/radio_manager/lifecycle.rs).
use log.Base.{
  ℕ, ◌+◌, ◌≤◌, ◌≡◌, ◌∙◌, sym, ap, refl, Bool, true, false, Option, none, some, List, map, set,
  get_elem?, arith, Bool-cases, Option-cases, inl, inr, ◌==◌,
}
use log.Base.Position.{count_if}
use log.RadioManager.{
  ManagedRadioSlot, vacant, active, shutting_down, Task, looking, validating, holding, notified,
  finished, cloned, waiting, stopping, advance, wake, RadioManager, step, Steps, here, further,
}
use log.RadioManager.Counts.{one_if, count_if-set, count_if-le, count_if-map, get_elem?-map}

abbrev pub is_holding : Task → Bool
is_holding holding = true
is_holding _ = false

-- The release of the last handle, until the slot is removed.
abbrev pub is_stopping : Task → Bool
is_stopping (stopping done) = true
is_stopping notified = true
is_stopping _ = false

-- What the numbers of holders and of stopping releases are for each kind of slot.
abbrev pub Agrees : ManagedRadioSlot → ℕ → ℕ → Type 0
Agrees vacant holders stops = (holders ≡ 0) × (stops ≡ 0)
Agrees (active refcount) holders stops = (holders ≡ refcount) × (1 ≤ refcount) × (stops ≡ 0)
Agrees (shutting_down done) holders stops = (holders ≡ 0) × (stops ≡ 1)

abbrev pub holders : RadioManager → ℕ
holders manager = count_if is_holding manager.tasks

abbrev pub stops : RadioManager → ℕ
stops manager = count_if is_stopping manager.tasks

abbrev pub IsCounted : RadioManager → Type 0
IsCounted manager = Agrees manager.slot (holders manager) (stops manager)

advance-Agrees :
    (slot : ManagedRadioSlot) (fresh : ℕ) (task : Task) (h s h' s' : ℕ)
    → Agrees slot h s
    → one_if (is_holding task) ≤ h
    → one_if (is_stopping task) ≤ s
    → h' + one_if (is_holding task) ≡ h + one_if (is_holding (advance slot fresh task).task)
    → s' + one_if (is_stopping task) ≡ s + one_if (is_stopping (advance slot fresh task).task)
    → Agrees (advance slot fresh task).slot h' s'
unfolding advance
advance-Agrees vacant fresh looking h s h' s' a k l m n = ground arith
advance-Agrees vacant fresh validating h s h' s' a k l m n = ground arith
advance-Agrees vacant fresh holding h s h' s' a k l m n = ground arith
advance-Agrees vacant fresh notified h s h' s' a k l m n = ground arith
advance-Agrees vacant fresh finished h s h' s' a k l m n = ground arith
advance-Agrees vacant fresh (cloned d) h s h' s' a k l m n = ground arith
advance-Agrees vacant fresh (waiting d) h s h' s' a k l m n = ground arith
advance-Agrees vacant fresh (stopping d) h s h' s' a k l m n = ground arith
advance-Agrees (active r) fresh looking h s h' s' a k l m n = ground arith
advance-Agrees (active r) fresh validating h s h' s' a k l m n = ground arith
advance-Agrees (active r) fresh holding h s h' s' a k l m n = ground arith
advance-Agrees (active r) fresh notified h s h' s' a k l m n = ground arith
advance-Agrees (active r) fresh finished h s h' s' a k l m n = ground arith
advance-Agrees (active r) fresh (cloned d) h s h' s' a k l m n = ground arith
advance-Agrees (active r) fresh (waiting d) h s h' s' a k l m n = ground arith
advance-Agrees (active r) fresh (stopping d) h s h' s' a k l m n = ground arith
advance-Agrees (shutting_down e) fresh looking h s h' s' a k l m n = ground arith
advance-Agrees (shutting_down e) fresh validating h s h' s' a k l m n = ground arith
advance-Agrees (shutting_down e) fresh holding h s h' s' a k l m n = ground arith
advance-Agrees (shutting_down e) fresh notified h s h' s' a k l m n = ground arith
advance-Agrees (shutting_down e) fresh finished h s h' s' a k l m n = ground arith
advance-Agrees (shutting_down e) fresh (cloned d) h s h' s' a k l m n = ground arith
advance-Agrees (shutting_down e) fresh (waiting d) h s h' s' a k l m n = ground arith
advance-Agrees (shutting_down e) fresh (stopping d) h s h' s' a k l m n = ground arith

-- Waking tasks changes neither number.
module _ (p : Task → Bool) (h : (done : ℕ) → p looking ≡ p (waiting done)) where
  wake-same : (told : Option ℕ) (task : Task) → p (wake told task) ≡ p task
  wake-same none task = refl
  wake-same (some told) (waiting done) = elim (Bool-cases (told == done)) [
    | inl e ↦ rw e (h done)
    | inr e ↦ rw e refl
  ]
  wake-same (some told) looking = refl
  wake-same (some told) validating = refl
  wake-same (some told) holding = refl
  wake-same (some told) notified = refl
  wake-same (some told) finished = refl
  wake-same (some told) (cloned done) = refl
  wake-same (some told) (stopping done) = refl

  pub count_if-step :
      (tasks : List Task) (i : ℕ) (task next : Task) (told : Option ℕ)
      → get_elem? tasks i ≡ some task
      → count_if p (set (map (wake told) tasks) i next) + one_if (p task)
        ≡ count_if p tasks + one_if (p next)
  count_if-step tasks i task next told e =
      ap (λ b. count_if p (set (map (wake told) tasks) i next) + one_if b)
        (sym (wake-same told task))
      ∙ (count_if-set p (map (wake told) tasks) i (wake told task) next
            (get_elem?-map (wake told) tasks i task e)
          ∙ ap (λ n. n + one_if (p next)) (count_if-map p (wake told) (wake-same told) tasks))

-- A step keeps the count right.
pub step-IsCounted :
    (manager : RadioManager) (i : ℕ) → IsCounted manager → IsCounted (step manager i)
unfolding step
step-IsCounted manager i c = elim (Option-cases (get_elem? manager.tasks i)) [
  | inl e ↦ rw (step, e) c
  | inr (task, e) ↦
      let m = advance manager.slot manager.fresh task in
      rw (step, e)
        (advance-Agrees manager.slot manager.fresh task (holders manager) (stops manager) _ _ c
          (count_if-le is_holding manager.tasks i task e)
          (count_if-le is_stopping manager.tasks i task e)
          (count_if-step is_holding (λ done. refl) manager.tasks i task m.task m.told e)
          (count_if-step is_stopping (λ done. refl) manager.tasks i task m.task m.told e))
]

-- In every state that is reached from one in which the count is right, the count of references of an
-- active radio is the number of its holders, and is not zero; without a radio, and while it shuts
-- down, there is no holder; and one release, no more, shuts it down.
pub steps-IsCounted :
    (start manager : RadioManager) → IsCounted start → Steps start manager → IsCounted manager
steps-IsCounted start _ c here = c
steps-IsCounted start _ c (further {manager = m} s i) =
    step-IsCounted m i (steps-IsCounted start m c s)
