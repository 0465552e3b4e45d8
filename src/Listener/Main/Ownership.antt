-- ===== src/Listener/Main/Ownership.antt =====
-- The rounds of the listener's main loop: its pointers and its lists answer for the descriptors.
pub mod Whole
use socket_dispatcher.Prelude.{
  ℕ, zero, suc, ◌-◌, refl, Bool, List, [], ◌∷◌, if-both, elim-both, ℤ, is_positive, Bytes,
}
use socket_dispatcher.World.{Ref, Os, World, poll}
use socket_dispatcher.World.Ledger.{IsFresh}
use socket_dispatcher.World.Outcomes.{
  Outcome, Outcome-return, Outcome-halt, Outcome-bind, Outcome-both, AnyHalt,
}
use socket_dispatcher.World.Ownership.{Owns-Quiet}
use socket_dispatcher.SocketsList.{
  SocketsList, ErrorType, error, interrupted, timeout, success, clear,
}
use socket_dispatcher.SocketsList.Delete.{Distinct}
use socket_dispatcher.SocketUtils.Ownership.{Owns-same}
use socket_dispatcher.Poller.Bounds.{IsPollable}
use socket_dispatcher.Poller.Quiet.{poll_sockets-keeps}
use socket_dispatcher.Poller.Ready.{IsPart, poll_sockets-IsPart}
use socket_dispatcher.Listener.Stable.{Stable}
use socket_dispatcher.Listener.Steps.{Excuses}
use socket_dispatcher.Listener.Ownership.{failed_handshakes, Answers}
use socket_dispatcher.Listener.Ownership.Turns.{process_sockets-Holds}
use socket_dispatcher.SocketUtils.Holding.{held, Holds, held-part, clear_ready-Owns}
use socket_dispatcher.Listener.Main.{Listener, restart, react, prepare, round, run, wait_disp_child}
use socket_dispatcher.Listener.Main.Quiet.{
  ChildExcuses, create_dispatcher-keeps, wait_disp_child-keeps, request_all-keeps,
}
use socket_dispatcher.Listener.Main.Rounds.{RunningWith, round-keeps}

abbrev pub listeners : Listener → List Ref
listeners l = l.tcp_listener ∷ l.unix_listener ∷ []

module _ (os : Os) where
  -- The two pointers are different and no list has an object twice; together they answer for the
  -- open descriptors.
  pub record Owned (l : Listener) : Type 0 where
    pub two : Distinct (listeners l)
    pub ready_once : Distinct l.ready.sockets
    pub holds :
        Holds os (failed_handshakes os) (listeners l) l.ready.sockets l.sockets.sockets l.world

  abbrev pub OwnedWith : Bool × Listener → Type 0
  OwnedWith x = Owned x.1

  module _ (fresh : IsFresh os) (pid : Bytes) where
    no_excuse : ChildExcuses os AnyHalt
    no_excuse = record { replaced = tt; refused = λ w e. tt }

    restart-Owned : (l : Listener) → Owned l → Outcome AnyHalt OwnedWith (restart os pid l)
    unfolding restart
    restart-Owned l h =
        let live = held (listeners l) l.ready.sockets l.sockets.sockets in
        let Q = Answers os live in
        let q = Owns-Quiet os live (failed_handshakes os) in
        let k = wait_disp_child-keeps Q q os l.world h.holds.1 in
        if-both (Outcome AnyHalt OwnedWith) (is_positive (wait_disp_child os l.world).0)
          (Outcome-bind AnyHalt (λ (v : ℤ × ℤ × World). Q v.2) OwnedWith _ _
            (create_dispatcher-keeps Q q AnyHalt os no_excuse l.disp_pid _ k)
            λ created k'.
              Outcome-return AnyHalt OwnedWith
                (record { two = h.two; ready_once = h.ready_once; holds = (h.holds.0, k') }))
          (Outcome-return AnyHalt OwnedWith
            (record { two = h.two; ready_once = h.ready_once; holds = (h.holds.0, k) }))

    react-Owned :
        (e : ErrorType) (l : Listener) → Owned l → Outcome AnyHalt OwnedWith (react os pid e l)
    unfolding react
    react-Owned timeout l h = restart-Owned l h
    react-Owned interrupted l h = Outcome-return AnyHalt OwnedWith h
    react-Owned error l h = Outcome-return AnyHalt OwnedWith h
    react-Owned success l h =
        let us = listeners l in
        Outcome-bind AnyHalt
          (λ (x : SocketsList × World).
            Holds os (failed_handshakes os) us l.ready.sockets x.0.sockets x.1)
          OwnedWith _ _
          (process_sockets-Holds os us l.ready.sockets fresh pid l.config l.ready.sockets l.sockets
            l.world (λ q k. k) h.holds)
          λ done k.
            Outcome-return AnyHalt OwnedWith
              (record { two = h.two; ready_once = h.ready_once; holds = k })

    -- Before the poll, the ready list is given up.
    prepare-Owned :
        (l : Listener)
        → Owned l
        → Answers os (held (listeners l) [] l.sockets.sockets) (prepare os pid l).world
    unfolding prepare
    prepare-Owned l h =
        let live = held (listeners l) [] l.sockets.sockets in
        request_all-keeps (Answers os live) (Owns-Quiet os live (failed_handshakes os))
          l.sockets.sockets _
          (clear_ready-Owns os (failed_handshakes os) (listeners l) l.ready.sockets
            l.sockets.sockets l.world h.ready_once h.holds.1)

    round-Owned :
        (l : Listener) → IsPollable l.sockets → Owned l → Outcome AnyHalt OwnedWith (round os pid l)
    unfolding round prepare clear
    round-Owned l p h =
        let l₁ = prepare os pid l in
        let live = held (listeners l) [] l.sockets.sockets in
        let Q = Answers os live in
        let q = Owns-Quiet os live (failed_handshakes os) in
        let Left = λ (v : ErrorType × World × SocketsList). Q v.1 in
        let Part = λ (v : ErrorType × World × SocketsList). IsPart l.sockets.sockets v.2.sockets in
        Outcome-bind AnyHalt (λ (v : ErrorType × World × SocketsList). Left v × Part v) OwnedWith _
          _
          (Outcome-both AnyHalt Left Part _
            (poll_sockets-keeps Q q Q q (λ e w k. q.calls (poll e) w refl k) AnyHalt os l₁.sockets
              l₁.ready l₁.world p (prepare-Owned l h))
            (poll_sockets-IsPart AnyHalt os l₁.sockets l₁.ready l₁.world p h.holds.0 refl))
          λ polled k.
            react-Owned polled.0 (record l₁ { world = polled.1; ready = polled.2 })
              (record {
                two = h.two;
                ready_once = k.1.0;
                holds = (
                  h.holds.0,
                  Owns-same os (failed_handshakes os) polled.1
                      (held-part (listeners l) l.sockets.sockets polled.2.sockets k.1.1) k.0,
                );
              })

    abbrev Anything : World → Type 0
    Anything w = Unit

    anything : Stable Anything
    anything = record {
      calls = λ c w h. tt;
      changes = λ f r w m h. tt;
      connections = λ fd t w h. tt;
      buffers = λ b w h. tt;
    }

    pub run-Owned :
        (fuel : ℕ) (l : Listener)
        → IsPollable l.sockets
        → Owned l
        → Outcome AnyHalt Owned (run os pid fuel l)
    unfolding run
    run-Owned zero l p h = Outcome-halt AnyHalt Owned tt
    run-Owned (suc fuel) l p h =
        let x : Excuses Anything AnyHalt pid l.config = record {
          at_class = λ r w k on no. tt;
          at_config = λ no. tt;
        } in
        let Pollable = RunningWith l.config Anything in
        elim-both (Outcome AnyHalt Owned) (os.exit_requested l.world.trace)
          (Outcome-return AnyHalt Owned h)
          (Outcome-bind AnyHalt (λ (a : Bool × Listener). Pollable a × OwnedWith a) Owned _ _
            (Outcome-both AnyHalt Pollable OwnedWith _
              (round-keeps Anything anything AnyHalt os pid l.config x no_excuse Anything anything
                (λ e w k. tt) l (p, refl, tt))
              (round-Owned l p h))
            λ after k.
              elim-both (Outcome AnyHalt Owned) after.0 (run-Owned fuel after.1 k.0.0 k.1)
                (Outcome-return AnyHalt Owned k.1))
