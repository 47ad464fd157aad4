-- ===== src/Core/Locations/Answering.antt =====
-- backend/telemetry_core/src/find_location.rs: requests and their answers, in whatever order the tasks
-- run.
use substrate_telemetry.Prelude.{
  ◌*◌, ◌≤◌, length, replicate, arith, ℕ, zero, suc, ◌≡◌, refl, sym, subst, List, [], ◌∷◌, ◌++◌, map,
  and_then, All,
}
use mathlib.Core.List.Perm
use mathlib.Core.List.{Perm, perm_middle, append_assoc, append-nil}
use substrate_telemetry.Common.InternalMessages.{IpAddr}
use substrate_telemetry.Common.NodeTypes.{Location}
use substrate_telemetry.Core.Locations.{
  Reader, Cache, location_of, Stage, reading, looking_up, located, Task, Locator, Event, requested,
  resumed, advance, resume, turn, run, start,
}
use substrate_telemetry.Core.Locations.Caching.{
  IsAt, IsSound, Knows, looked_up-IsAt, cached-Knows, found-IsSound, default_cache-IsSound,
}
use substrate_telemetry.Core.Locations.Finishing.{work_le, run_finished}

module _ (reader : Reader) where
  -- The answers to a list of requests.
  pub Answers : {Name : Type 0} → List (Name × IpAddr) → List (Name × Location) → Type 0
  Answers [] [] = Unit
  Answers [] (b ∷ bs) = ⊥
  Answers (r ∷ rs) [] = ⊥
  Answers ((name, ip) ∷ rs) ((name', location) ∷ bs) =
      (name ≡ name') × IsAt reader ip location × Answers rs bs

  Answers-append :
      {Name : Type 0} (rs rs' : List (Name × IpAddr)) (bs bs' : List (Name × Location))
      → Answers rs bs
      → Answers rs' bs'
      → Answers (rs ++ rs') (bs ++ bs')
  unfolding Answers
  Answers-append [] rs' [] bs' h k = k
  Answers-append [] rs' (b ∷ bs) bs' h k = absurd h
  Answers-append (r ∷ rs) rs' [] bs' h k = absurd h
  Answers-append (r ∷ rs) rs' (b ∷ bs) bs' h k = (h.0, h.1, Answers-append rs rs' bs bs' h.2 k)

-- The requests that tasks are at work on.
pub open_requests : {Name : Type 0} → List (Task Name) → List (Name × IpAddr)
open_requests = map (λ t. (t.name, t.ip))

-- The requests that were received.
abbrev pub received : {Name : Type 0} → List (Event Name) → List (Name × IpAddr)
received [] = []
received (requested name ip ∷ es) = (name, ip) ∷ received es
received (resumed i ∷ es) = received es

-- Every request is answered, under its name and with where its address is, or has a task still.
pub record Settles {Name : Type 0} (reader : Reader) (requests : List (Name × IpAddr))
    (tasks : List (Task Name)) (sent : List (Name × Location)) : Type 0 where
  pub settled : List (Name × IpAddr)
  pub perm : Perm requests (settled ++ open_requests tasks)
  pub answers : Answers reader settled sent

module _ {Name : Type 0} (reader : Reader) where
  abbrev AllKnow : List (Task Name) → Type 0
  AllKnow = All (λ t. Knows reader t.ip t.stage)

  -- What is kept when a task goes on.
  record Goes (tasks : List (Task Name)) (r : Cache × (List (Task Name) × List (Name × Location)))
      : Type 0 where
    sound : IsSound reader r.0
    know : AllKnow r.1.0
    settles : Settles reader (open_requests tasks) r.1.0 r.1.1

  none_settled :
      (rs : List (Name × IpAddr)) (tasks : List (Task Name))
      → rs ≡ open_requests tasks
      → Settles reader rs tasks []
  unfolding Answers
  none_settled rs tasks e = record {
    settled = [];
    perm = subst (Perm rs) e (Perm.refl rs);
    answers = tt;
  }

  advance-Goes :
      (stage : Stage) (task : Task Name) (tasks : List (Task Name)) (cache : Cache)
      → IsSound reader cache
      → Knows reader task.ip stage
      → AllKnow tasks
      → Goes (task ∷ tasks) (advance reader stage task tasks cache)
  unfolding advance Knows open_requests Answers
  advance-Goes reading task tasks cache h k w = record {
    sound = h;
    know = (cached-Knows reader task.ip cache h, w);
    settles = none_settled _ _ refl;
  }
  advance-Goes looking_up task tasks cache h k w =
      let (sound, at) =
        found-IsSound reader task.ip (and_then (reader.lookup task.ip) (location_of reader)) cache h
          (looked_up-IsAt reader task.ip k) in
      record { sound = sound; know = (at, w); settles = none_settled _ _ refl }
  advance-Goes (located location) task tasks cache h k w = record {
    sound = h;
    know = w;
    settles = record {
      settled = (task.name, task.ip) ∷ [];
      perm = Perm.refl _;
      answers = (refl, k, tt);
    };
  }

  resume-Goes :
      (i : ℕ) (tasks : List (Task Name)) (cache : Cache)
      → IsSound reader cache
      → AllKnow tasks
      → Goes tasks (resume reader i tasks cache)
  unfolding resume open_requests
  resume-Goes i [] cache h w = record { sound = h; know = tt; settles = none_settled _ _ refl }
  resume-Goes zero (task ∷ tasks) cache h w = advance-Goes task.stage task tasks cache h w.0 w.1
  resume-Goes (suc i) (task ∷ tasks) cache h w =
      let g = resume-Goes i tasks cache h w.1 in
      let s = g.settles in
      record {
        sound = g.sound;
        know = (w.0, g.know);
        settles = record {
          settled = s.settled;
          perm =
              Perm.trans (Perm.cons (task.name, task.ip) s.perm)
                (Perm.symm (perm_middle s.settled _));
          answers = s.answers;
        };
      }

  -- What a turn settles, and then the turns that follow.
  Settles-trans :
      (rs waiting : List (Name × IpAddr)) (before tasks : List (Task Name))
      (answers others : List (Name × Location))
      → Settles reader waiting before answers
      → Settles reader (rs ++ open_requests before) tasks others
      → Settles reader (rs ++ waiting) tasks (answers ++ others)
  Settles-trans rs waiting before tasks answers others s t = record {
    settled = s.settled ++ t.settled;
    perm = Perm.trans (Perm.append_left rs s.perm) (
        Perm.trans (append-swap rs s.settled (open_requests before)) (
          subst (Perm (s.settled ++ (rs ++ open_requests before)))
            (sym (append_assoc s.settled t.settled (open_requests tasks)))
            (Perm.append_left s.settled t.perm)));
    answers = Answers-append reader s.settled t.settled answers others s.answers t.answers;
  }
    where
      append-swap : (xs ys zs : List (Name × IpAddr)) → Perm (xs ++ (ys ++ zs)) (ys ++ (xs ++ zs))
      append-swap xs [] zs = Perm.refl _
      append-swap xs (y ∷ ys) zs =
          Perm.trans (perm_middle xs (ys ++ zs)) (Perm.cons y (append-swap xs ys zs))

  run-Settles_from :
      (es : List (Event Name)) (s : Locator Name)
      → IsSound reader s.cache
      → AllKnow s.tasks
      → Settles reader
          (received es ++ open_requests s.tasks)
          (run reader es s).0.tasks
          (run reader es s).1
  unfolding run turn open_requests Knows
  run-Settles_from [] s h w = none_settled _ _ refl
  run-Settles_from (requested name ip ∷ es) s h w =
      let t =
        run-Settles_from es
          (record s { tasks = record { name = name; ip = ip; stage = reading } ∷ s.tasks }) h
          (tt, w) in
      record {
        settled = t.settled;
        perm = Perm.trans (Perm.symm (perm_middle (received es) (open_requests s.tasks))) t.perm;
        answers = t.answers;
      }
  run-Settles_from (resumed i ∷ es) s h w =
      let g = resume-Goes i s.tasks s.cache h w in
      let (cache, (tasks, answers)) = resume reader i s.tasks s.cache in
      Settles-trans (received es) (open_requests s.tasks) tasks _ answers _ g.settles
        (run-Settles_from es (record { cache = cache; tasks = tasks }) g.sound g.know)

  -- In whatever order the requests come and their tasks run, every request that was received is
  -- answered once, under its name and with where its address is, or else its task is not over; and
  -- three more turns for each task that is left bring all of them to an end.
  pub run-Settles :
      (es : List (Event Name))
      → Settles reader (received es) (run reader es start).0.tasks (run reader es start).1
        × ((n : ℕ)
            → 3 * length (run reader es start).0.tasks ≤ n
            → (run reader (replicate n (resumed 0)) (run reader es start).0).0.tasks ≡ [])
  unfolding start open_requests
  run-Settles es =
      let settles = run-Settles_from es start (default_cache-IsSound reader) tt in
      let tasks = (run reader es start).0.tasks in
      (
        subst (λ rs. Settles reader rs tasks (run reader es start).1) (append-nil (received es))
            settles,
        λ n h.
            run_finished reader n (run reader es start).0 (omega (arith, h, work_le reader tasks)),
      )
