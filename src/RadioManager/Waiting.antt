-- ===== src/RadioManager/Waiting.antt =====
-- The end of a shutdown, and who waits for it (radio-io/src/radio_manager/lifecycle.rs).
use log.Base.{
  ℕ, ◌+◌, ◌-◌, ◌≤◌, ◌<◌, ◌≡◌, ◌∙◌, sym, ap, subst, refl, Bool, true, false, none, some, map, set,
  get_elem?, arith, Bool-cases, Option-cases, inl, inr, ◌==◌,
}
use log.Base.Position.{count_if}
use log.RadioManager.{
  ManagedRadioSlot, vacant, active, shutting_down, Task, looking, validating, holding, notified,
  finished, cloned, waiting, stopping, advance, wake, RadioManager, step, Steps, here, further,
}
use log.RadioManager.Counts.{
  one_if, count_if-le, get_elem?-map, get_elem?-set, get_elem?-set_other, count_if-found, same,
}
use log.RadioManager.Refcount.{
  IsCounted, Agrees, holders, stops, is_stopping, count_if-step, steps-IsCounted,
}

step_lem :
    (manager : RadioManager) (i : ℕ) (task : Task)
    → get_elem? manager.tasks i ≡ some task
    → let m = advance manager.slot manager.fresh task in
      step manager i ≡ record {
        slot = m.slot;
        fresh = m.fresh;
        tasks = set (map (wake m.told) manager.tasks) i m.task;
      }
unfolding step
step_lem manager i task e = rw (step, e) refl

-- While a radio shuts down, a release that stops it takes its slot away in two steps or less.
taken_away :
    (fresh done : ℕ) (task : Task)
    → is_stopping task ≡ true
    → let m = advance (shutting_down done) fresh task in
      (advance m.slot m.fresh m.task).slot ≡ vacant
unfolding advance
taken_away fresh done (stopping d) h = refl
taken_away fresh done notified h = refl
taken_away fresh done looking h = ground arith
taken_away fresh done validating h = ground arith
taken_away fresh done holding h = ground arith
taken_away fresh done finished h = ground arith
taken_away fresh done (cloned d) h = ground arith
taken_away fresh done (waiting d) h = ground arith

two_steps :
    (slot : ManagedRadioSlot) (fresh : ℕ) (done : ℕ) (task : Task)
    → slot ≡ shutting_down done
    → is_stopping task ≡ true
    → let m = advance slot fresh task in (advance m.slot m.fresh m.task).slot ≡ vacant
two_steps slot fresh done task e h =
    subst
      (λ (s : ManagedRadioSlot).
        let m = advance s fresh task in (advance m.slot m.fresh m.task).slot ≡ vacant)
      (sym e) (taken_away fresh done task h)

-- In every state that is reached from one in which the count is right, a slot that shuts down is
-- taken away by two steps of one task, whatever the other tasks have done.
pub shutdown_ends :
    (start manager : RadioManager) (done : ℕ)
    → IsCounted start
    → Steps start manager
    → manager.slot ≡ shutting_down done
    → (i : ℕ) × ((step (step manager i) i).slot ≡ vacant)
shutdown_ends start manager done c s e =
    let counted = steps-IsCounted start manager c s in
    let one =
      (subst (λ (slot : ManagedRadioSlot). Agrees slot (holders manager) (stops manager)) e
        counted).1 in
    let found = count_if-found is_stopping manager.tasks (omega (arith, one)) in
    let m = advance manager.slot manager.fresh found.1 in
    let next : RadioManager = record {
      slot = m.slot;
      fresh = m.fresh;
      tasks = set (map (wake m.told) manager.tasks) found.0 m.task;
    } in
    let first = step_lem manager found.0 found.1 found.2 in
    let there : get_elem? next.tasks found.0 ≡ some m.task =
      get_elem?-set (map (wake m.told) manager.tasks) found.0 (wake m.told found.1) m.task
        (get_elem?-map (wake m.told) manager.tasks found.0 found.1 found.2) in
    (
      found.0,
      ap (λ r. (step r found.0).slot) first
          ∙ (ap (λ (r : RadioManager). r.slot) (step_lem next found.0 m.task there)
              ∙ two_steps manager.slot manager.fresh done found.1 e found.3),
    )

-- The release that will tell those who wait on this `Notify`.
abbrev pub tells : ℕ → Task → Bool
tells done (stopping other) = other == done
tells done _ = false

-- Nobody is left to tell, and no later shutdown uses this `Notify`.
abbrev pub IsStale : ℕ → RadioManager → Type 0
IsStale done manager = (done < manager.fresh) × (count_if (tells done) manager.tasks ≡ 0)

advance-IsStale :
    (slot : ManagedRadioSlot) (fresh done : ℕ) (task : Task)
    → done < fresh
    → tells done task ≡ false
    → let m = advance slot fresh task in
      (done < m.fresh) × (tells done m.task ≡ false) × (wake m.told (waiting done) ≡ waiting done)
unfolding advance
advance-IsStale vacant fresh done looking h k = (h, refl, refl)
advance-IsStale (active r) fresh done looking h k = (h, refl, refl)
advance-IsStale (shutting_down d) fresh done looking h k = (h, refl, refl)
advance-IsStale vacant fresh done validating h k = (h, refl, refl)
advance-IsStale (active r) fresh done validating h k = (h, refl, refl)
advance-IsStale (shutting_down d) fresh done validating h k = (h, refl, refl)
advance-IsStale vacant fresh done holding h k = (h, refl, refl)
advance-IsStale (active r) fresh done holding h k = elim (Bool-cases (r - 1 == 0)) [
  | inl e ↦ let new : (fresh == done) ≡ false = ground arith in rw e (omega arith, new, refl)
  | inr e ↦ rw e (h, refl, refl)
]
advance-IsStale (shutting_down d) fresh done holding h k = (h, refl, refl)
advance-IsStale slot fresh done notified h k = (h, refl, refl)
advance-IsStale slot fresh done finished h k = (h, refl, refl)
advance-IsStale slot fresh done (cloned d) h k = (h, refl, refl)
advance-IsStale slot fresh done (waiting d) h k = (h, refl, refl)
advance-IsStale slot fresh done (stopping d) h k = (h, refl, rw k refl)

none_tells : (b : Bool) → one_if b ≤ 0 → b ≡ false
none_tells true h = ground arith
none_tells false h = refl

-- The step of another task leaves a task that waits, and the step of the task itself changes nothing.
stays :
    (manager : RadioManager) (i j done : ℕ) (task : Task)
    → let m = advance manager.slot manager.fresh task in
      get_elem? manager.tasks i ≡ some (waiting done)
      → get_elem? manager.tasks j ≡ some task
      → wake m.told (waiting done) ≡ waiting done
      → get_elem? (set (map (wake m.told) manager.tasks) j m.task) i ≡ some (waiting done)
unfolding advance
stays manager i j done task e f w =
    let m = advance manager.slot manager.fresh task in
    let there : get_elem? (map (wake m.told) manager.tasks) i ≡ some (waiting done) =
      get_elem?-map (wake m.told) manager.tasks i (waiting done) e ∙ ap some w in
    elim (get_elem?-set_other (map (wake m.told) manager.tasks) i j (waiting done) m.task there) [
      | inl k ↦ k
      | inr k ↦
          let own : task ≡ waiting done =
            same task (waiting done) (sym f ∙ (ap (get_elem? manager.tasks) (sym k) ∙ e)) in
          ap (get_elem? (set (map (wake m.told) manager.tasks) j m.task)) k
          ∙ (get_elem?-set (map (wake m.told) manager.tasks) j (waiting done) m.task
                (ap (get_elem? (map (wake m.told) manager.tasks)) (sym k) ∙ there)
              ∙ ap some (
                  ap (λ t. (advance manager.slot manager.fresh t).task) own
                  ∙ waits manager.slot manager.fresh done))
    ]
  where
    waits :
        (slot : ManagedRadioSlot) (fresh done : ℕ)
        → (advance slot fresh (waiting done)).task ≡ waiting done
    waits slot fresh done = refl

idle_step :
    (manager : RadioManager) (j : ℕ) → get_elem? manager.tasks j ≡ none → step manager j ≡ manager
unfolding step
idle_step manager j f = rw (step, f) refl

step-IsStale :
    (manager : RadioManager) (i j done : ℕ)
    → IsStale done manager
    → get_elem? manager.tasks i ≡ some (waiting done)
    → IsStale done (step manager j) × (get_elem? (step manager j).tasks i ≡ some (waiting done))
step-IsStale manager i j done s e = elim (Option-cases (get_elem? manager.tasks j)) [
  | inl f ↦ let idle : step manager j ≡ manager = idle_step manager j f in rw idle (s, e)
  | inr (task, f) ↦
      let m = advance manager.slot manager.fresh task in
      let silent =
        none_tells (tells done task)
          (omega (arith, count_if-le (tells done) manager.tasks j task f, s.1)) in
      let a = advance-IsStale manager.slot manager.fresh done task s.0 silent in
      let count = count_if-step (tells done) (λ d. refl) manager.tasks j task m.task m.told f in
      rw (step_lem manager j task f) (
        (a.0, no_more (tells done task) (tells done m.task) _ _ silent a.1 count s.1),
        stays manager i j done task e f a.2,
      )
]
  where
    no_more :
        (b c : Bool) (n k : ℕ) → b ≡ false → c ≡ false → n + one_if b ≡ k + one_if c → k ≡ 0 → n ≡ 0
    no_more true c n k p q h z = ground arith
    no_more false true n k p q h z = ground arith
    no_more false false n k p q h z = omega (arith, h, z)

-- A task of `acquire` that waits on a `Notify` whose waiters have been told, so that no release is
-- left to tell them, waits in every state that is reached from there.
pub waits_forever :
    (start manager : RadioManager) (i done : ℕ)
    → done < start.fresh
    → count_if (tells done) start.tasks ≡ 0
    → get_elem? start.tasks i ≡ some (waiting done)
    → Steps start manager
    → get_elem? manager.tasks i ≡ some (waiting done)
waits_forever start manager i done h k e s = (go manager s).1
  where
    go :
        (manager : RadioManager)
        → Steps start manager
        → IsStale done manager × (get_elem? manager.tasks i ≡ some (waiting done))
    go _ here = ((h, k), e)
    go _ (further {manager = m} s j) =
        let before = go m s in step-IsStale m i j done before.0 before.1
