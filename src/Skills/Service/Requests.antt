-- ===== src/Skills/Service/Requests.antt =====
-- The frame of a request of SkillsService of src/skills/service.ts.
use mcp_dev_runtime.Base.{ℕ, ◌+◌, ◌-◌, leb, ◌≡◌, refl, arith}
use mcp_dev_runtime.Runtime.PatchEngine.Actions.{
  Outcome, done, failed, Io, returns, throws, go_on, ◌>>=◌, ◌>>◌, attempt, as_value, settle,
}
use mcp_dev_runtime.Runtime.PatchEngine.Reading.{Keeps, bind-Keeps, returns-Keeps, refuse_if-Keeps}
use mcp_dev_runtime.Skills.Limits.{request_deadline_ms}
use mcp_dev_runtime.Skills.Service.{
  SkillsService, World, looks, updates, clock, check, finish, run_checked, request,
}

module _ {S : Type 0} where
  -- The requests that run.
  abbrev pub running : World S → ℕ
  running w = w.service.active

  looks-Keeps : {A : Type 0} (f : SkillsService → A) → Keeps running (looks {S = S} f)
  unfolding looks
  looks-Keeps f = record { kept = λ w. refl }

  clock-Keeps : (now : World S → ℕ) → Keeps running (clock now)
  unfolding clock
  clock-Keeps now = record { kept = λ w. refl }

  check-Keeps : (now : World S → ℕ) (until : ℕ) → Keeps running (check now until)
  unfolding check
  check-Keeps now until = bind-Keeps running (looks-Keeps (λ s. s.closed)) (λ closed.
      bind-Keeps running (refuse_if-Keeps running closed _)
        (λ _. bind-Keeps running (clock-Keeps now) (λ time. refuse_if-Keeps running _ _)))

  run_checked-Keeps :
      {A : Type 0} {checks : Io (World S) (Unit {0})} {fn : Io (World S) A}
      → Keeps running checks
      → Keeps running fn
      → Keeps running (run_checked checks fn)
  unfolding run_checked
  run_checked-Keeps kc kf =
      bind-Keeps running kf (λ value. bind-Keeps running kc (λ _. returns-Keeps running value))

  finish_one : {A : Type 0} (o : Outcome A) (w : World S) → running (finish o w).0 ≡ running w - 1
  unfolding finish updates settle ◌>>=◌ go_on returns throws
  finish_one (done a) w = refl
  finish_one (failed e) w = refl

  attempt-finish :
      {A : Type 0} (m : Io (World S) A) (w : World S)
      → Keeps running m
      → running ((attempt m >>= finish) w).0 ≡ running w - 1
  unfolding attempt as_value ◌>>=◌ go_on
  attempt-finish {A = A} m w k = finish_as (m w) (k.kept w)
    where
      finish_as :
          (r : World S × Outcome A)
          → running r.0 ≡ running w
          → running (finish r.1 r.0).0 ≡ running w - 1
      finish_as (v, o) same = omega (arith, finish_one o v, same)

  module _ {A : Type 0} (now : World S → ℕ) (fn : Io (World S) (Unit {0}) → Io (World S) A) where
    -- The statements behind the guards.
    abbrev placed : Io (World S) A
    placed = do
      updates (λ s. record s { active = s.active + 1 })
      start ← clock now
      let checks = check now (start + request_deadline_ms)
      outcome ← attempt (run_checked checks (fn checks))
      finish outcome

    placed-Keeps :
        ((checks : Io (World S) (Unit {0})) → Keeps running checks → Keeps running (fn checks))
        → Keeps running placed
    unfolding updates clock ◌>>=◌ go_on
    placed-Keeps k = record {
      kept = λ w.
          let busy : World S = record w {
            service = record (w.service) { active = w.service.active + 1 };
          } in
          let until = now busy + request_deadline_ms in
          omega (
            arith,
            attempt-finish (run_checked (check now until) (fn (check now until))) busy (
                run_checked-Keeps (check-Keeps now until)
                  (k (check now until) (check-Keeps now until))),
          );
    }

    -- A request gives its place back, whatever comes of it, if what it waits for keeps the count.
    pub request-Keeps :
        ((checks : Io (World S) (Unit {0})) → Keeps running checks → Keeps running (fn checks))
        → Keeps running (request now fn)
    unfolding request
    request-Keeps k = bind-Keeps running (looks-Keeps (λ s. s.closed)) (λ closed.
        bind-Keeps running (refuse_if-Keeps running closed _) (λ _.
          bind-Keeps running (looks-Keeps (λ s. s.active)) (λ active.
            bind-Keeps running (refuse_if-Keeps running (leb 4 active) _) (λ _. placed-Keeps k))))
