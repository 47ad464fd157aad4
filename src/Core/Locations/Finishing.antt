-- ===== src/Core/Locations/Finishing.antt =====
-- backend/telemetry_core/src/find_location.rs: tasks that go on come to an end.
use substrate_telemetry.Prelude.{
  ℕ, zero, suc, ◌+◌, ◌-◌, ◌*◌, ◌≤◌, ◌<◌, ◌≡◌, refl, arith, Option, none, some, List, [], ◌∷◌,
  length, replicate,
}
use substrate_telemetry.Prelude.HashMap
use substrate_telemetry.Common.NodeTypes.{NodeLocation}
use substrate_telemetry.Core.Locations.{
  Reader, Cache, Stage, reading, looking_up, located, cached, Task, Locator, resumed, advance,
  resume, turn, run,
}

-- How many turns a task takes at most.
turns_left : Stage → ℕ
turns_left reading = 3
turns_left looking_up = 2
turns_left (located location) = 1

some_left : (stage : Stage) → 0 < turns_left stage
unfolding turns_left
some_left reading = omega arith
some_left looking_up = omega arith
some_left (located location) = omega arith

at_most : (stage : Stage) → turns_left stage ≤ 3
unfolding turns_left
at_most reading = omega arith
at_most looking_up = omega arith
at_most (located location) = omega arith

cached_less : (o : Option NodeLocation) → turns_left (cached o) ≤ 2
unfolding turns_left cached
cached_less none = omega arith
cached_less (some location) = omega arith

module _ {Name : Type 0} (reader : Reader) where
  -- How many turns the tasks take at most.
  pub work : List (Task Name) → ℕ
  work [] = 0
  work (task ∷ tasks) = turns_left task.stage + work tasks

  pub work_le : (tasks : List (Task Name)) → work tasks ≤ 3 * length tasks
  unfolding work
  work_le [] = omega arith
  work_le (task ∷ tasks) = omega (arith, work_le tasks, at_most task.stage)

  nothing_left : (tasks : List (Task Name)) → work tasks ≤ 0 → tasks ≡ []
  unfolding work
  nothing_left [] h = refl
  nothing_left (task ∷ tasks) h = absurd (omega (arith, h, some_left task.stage))

  advance_less :
      (stage : Stage) (task : Task Name) (tasks : List (Task Name)) (cache : Cache)
      → work (advance reader stage task tasks cache).1.0 < turns_left stage + work tasks
  unfolding advance work turns_left
  advance_less reading task tasks cache = omega (arith, cached_less (HashMap.get task.ip cache))
  advance_less looking_up task tasks cache = omega arith
  advance_less (located location) task tasks cache = omega arith

  resume_less :
      (tasks : List (Task Name)) (cache : Cache)
      → work (resume reader 0 tasks cache).1.0 ≤ work tasks - 1
  unfolding resume work
  resume_less [] cache = omega arith
  resume_less (task ∷ tasks) cache = omega (arith, advance_less task.stage task tasks cache)

  -- The newest task goes on until there is none.
  pub run_finished :
      (n : ℕ) (s : Locator Name)
      → work s.tasks ≤ n
      → (run reader (replicate n (resumed 0)) s).0.tasks ≡ []
  unfolding run turn
  run_finished zero s h = nothing_left s.tasks h
  run_finished (suc n) s h =
      run_finished n (turn reader (resumed 0) s).0 (omega (arith, h, resume_less s.tasks s.cache))
