-- ===== src/Listener/Main/Loop.antt =====
-- How the listener's main loop ends: what holds of its halts, and of the rounds it needs.
use socket_dispatcher.Prelude.{
  ℕ, zero, suc, ◌+◌, ◌≤◌, ◌≡◌, true, List, arith, elim-both, length, Bytes,
}
use socket_dispatcher.World.{PollFd, Os, World, Halt, out_of_fuel, poll, call, Trace}
use socket_dispatcher.World.Outcomes.{Outcome, Outcome-return, Outcome-halt, Outcome-bind}
use socket_dispatcher.Config.{ApplicationConfig}
use socket_dispatcher.Listener.Stable.{Stable}
use socket_dispatcher.Listener.Steps.{Excuses}
use socket_dispatcher.Listener.Main.{Listener, run}
use socket_dispatcher.Listener.Main.Quiet.{ChildExcuses}
use socket_dispatcher.Listener.Main.Rounds.{Running, RunningWith, round-keeps}

-- A world that has made at least `n` calls.
abbrev pub Grown : ℕ → World → Type 0
Grown n w = n ≤ length w.trace

-- `Q`, of a world that has made at least `n` calls.
abbrev pub GrownWith : (World → Type 0) → ℕ → World → Type 0
GrownWith Q n w = Q w × Grown n w

Grown-Stable : (Q : World → Type 0) (n : ℕ) → Stable Q → Stable (GrownWith Q n)
Grown-Stable Q n q = record {
  calls = λ c w h. (q.calls c w h.0, ground arith);
  changes = λ f r w m h. (q.changes f r w m h.0, h.1);
  connections = λ fd t w h. (q.connections fd t w h.0, h.1);
  buffers = λ b w h. (q.buffers b w h.0, h.1);
}

Grown-tick :
    (Q : World → Type 0) (n : ℕ)
    → Stable Q
    → (entries : List PollFd) (w : World) → GrownWith Q n w
    → GrownWith Q (suc n) (call (poll entries) w)
Grown-tick Q n q entries w h = (q.calls (poll entries) w h.0, ground arith)

module _ (Q : World → Type 0) (q : Stable Q) (H : Halt → Type 0) (os : Os) (pid : Bytes)
    (c : ApplicationConfig) (x : Excuses Q H pid c) (y : ChildExcuses os H) where
  abbrev Ran : Listener → Type 0
  Ran l = Running c Q l

  -- Any number of rounds keeps what a round keeps, where a loop that is cut short is excused.
  pub run-keeps :
      (fuel : ℕ) (l : Listener)
      → H out_of_fuel
      → Running c Q l
      → Outcome H (Running c Q) (run os pid fuel l)
  unfolding run
  run-keeps zero l cut h = Outcome-halt H Ran cut
  run-keeps (suc fuel) l cut h =
      elim-both (Outcome H Ran) (os.exit_requested l.world.trace) (Outcome-return H Ran h) (
        Outcome-bind H (RunningWith c Q) Ran _ _
          (round-keeps Q q H os pid c x y Q q (λ e w k. q.calls (poll e) w k) l h)
          λ after k.
            elim-both (Outcome H Ran) after.0 (run-keeps fuel after.1 cut k)
              (Outcome-return H Ran k))

  -- As each round polls once, a request to exit that has come by the call `limit` ends the loop.
  pub run-ends :
      (limit n fuel : ℕ) (l : Listener)
      → ((t : Trace) → limit ≤ length t → os.exit_requested t ≡ true)
      → limit ≤ n + fuel
      → Running c (GrownWith Q n) l
      → Outcome H (Running c Q) (run os pid (suc fuel) l)
  unfolding run
  run-ends limit n zero l late enough h =
      let e = late l.world.trace (omega arith) in
      rw (run, e) (Outcome-return H Ran (h.0, h.1, h.2.0))
  run-ends limit n (suc fuel) l late enough h =
      let R = GrownWith Q (suc n) in
      let s = Grown-Stable Q (suc n) q in
      let x' : Excuses R H pid c = record {
        at_class = λ r w k. x.at_class r w k.0;
        at_config = x.at_config;
      } in
      elim-both (Outcome H Ran) (os.exit_requested l.world.trace)
        (Outcome-return H Ran (h.0, h.1, h.2.0))
        (Outcome-bind H (RunningWith c R) Ran _ _
          (round-keeps R s H os pid c x' y (GrownWith Q n) (Grown-Stable Q n q) (Grown-tick Q n q) l
            h)
          λ after k.
            elim-both (Outcome H Ran) after.0
              (run-ends limit (suc n) fuel after.1 late (omega arith) k)
              (Outcome-return H Ran (k.0, k.1, k.2.0)))
