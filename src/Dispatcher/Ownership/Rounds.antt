-- ===== src/Dispatcher/Ownership/Rounds.antt =====
-- The turns with the listener and the rounds of the dispatcher's main loop.
use socket_dispatcher.Prelude.{
  ℕ, refl, Bool, true, false, List, [], ◌∷◌, if-both, pos, ◌==ℤ◌, is_negative, Bytes, codes,
  starts_with,
}
use socket_dispatcher.Socket.{is_dropped, poll_for_read}
use socket_dispatcher.World.{Ref, Os, World, ok, recv, poll, call, modify, descriptor_of}
use socket_dispatcher.World.Ledger.{BringsNew}
use socket_dispatcher.World.Outcomes.{
  Outcome, Outcome-return, Outcome-bind, Outcome-map, Outcome-both, AnyHalt,
}
use socket_dispatcher.SocketsList.{SocketsList, ErrorType, clear}
use socket_dispatcher.SocketUtils.Ownership.{Owns-same}
use socket_dispatcher.SocketUtils.Holding.{held-part, clear_ready-Owns}
use socket_dispatcher.Poller.{poll_sockets}
use socket_dispatcher.Poller.Quiet.{poll_sockets-keeps}
use socket_dispatcher.Poller.Ready.{IsPart, poll_sockets-IsPart}
use socket_dispatcher.Ssl.{SslGlobals}
use socket_dispatcher.Config.{ApplicationConfig}
use socket_dispatcher.Dispatcher.{
  Dispatcher, apply_config, receive_config, dispatcher_process, prepare,
}
use socket_dispatcher.Dispatcher.Quiet.{request_input-keeps, process_config-keeps}
use socket_dispatcher.Dispatcher.Kind.{release-IsUnix}
use socket_dispatcher.Dispatcher.Invariant.{Preserved}
use socket_dispatcher.Dispatcher.Ownership.{
  left_open, Owned, OwnedWith, Answers, quietly, moved, serve_client-Owned, receive_client-Owned,
}

module _ (os : Os) (stack : Bytes) (fuel : ℕ) where
  abbrev Turns : List Ref → Bool × Dispatcher → Type 0
  Turns = OwnedWith os stack fuel

  apply_config-Owned :
      (ready : List Ref) (input : Bytes) (d : Dispatcher)
      → Owned os stack fuel ready d
      → Outcome AnyHalt (Turns ready) (apply_config os stack fuel input d)
  unfolding apply_config
  apply_config-Owned ready input d h =
      Outcome-bind AnyHalt
        (λ (x : Bool × ApplicationConfig × SslGlobals × World). Answers os stack fuel ready d x.3)
        (Turns ready) _ _
        (process_config-keeps (Answers os stack fuel ready d) (quietly os stack fuel ready d) os
          stack input d.config d.globals d.world h.answers)
        λ done k. Outcome-return AnyHalt (Turns ready) (record {
          found = h.found;
          ready_once = h.ready_once;
          small = h.small;
          once = h.once;
          first = h.first;
          answers = k;
        })

  -- A `recv` changes nothing.
  received :
      (ready : List Ref) (n : ℕ) (peek : Bool) (d : Dispatcher)
      → Owned os stack fuel ready d
      → Owned os stack fuel ready
          (record d { world = call (recv (descriptor_of d.world d.unix_socket) n peek) d.world })
  received ready n peek d h =
      moved os stack fuel ready d _ h
        ((quietly os stack fuel ready d).calls _ d.world refl h.answers)

  receive_config-Owned :
      (ready : List Ref) (d : Dispatcher)
      → Owned os stack fuel ready d
      → Outcome AnyHalt (Turns ready) (receive_config os stack fuel d)
  unfolding receive_config
  receive_config-Owned ready d h =
      let k = received ready 4096 false d h in
      if-both (Outcome AnyHalt (Turns ready))
        (is_negative
          (os.received d.world.trace (descriptor_of d.world d.unix_socket) 4096 false).ret)
        (Outcome-return AnyHalt (Turns ready) k) (apply_config-Owned ready _ _ k)

  module _ (fresh : BringsNew os) where
    dispatcher_process-Owned :
        (ready : List Ref) (d : Dispatcher)
        → Owned os stack fuel ready d
        → Outcome AnyHalt (Turns ready) (dispatcher_process os stack fuel d)
    unfolding dispatcher_process
    dispatcher_process-Owned ready d h =
        let message = os.received d.world.trace (descriptor_of d.world d.unix_socket) 200 true in
        let k = received ready 200 true d h in
        let P = Outcome AnyHalt (Turns ready) in
        let back : P (
            ok (
              false,
              record d {
                world = call (recv (descriptor_of d.world d.unix_socket) 200 true) d.world;
              },
            )) =
          Outcome-return AnyHalt (Turns ready) k in
        if-both P (is_dropped (d.world.cell d.unix_socket)) (Outcome-return AnyHalt (Turns ready) h)
          (if-both P (message.ret ==ℤ pos 0) back (
            if-both P (message.ret ==ℤ pos 2) (receive_client-Owned os stack fuel fresh ready _ k) (
              if-both P (starts_with (codes "CONFIG") message.buffer)
                (receive_config-Owned ready _ k)
                (if-both P (starts_with (codes "EXIT") message.buffer) back
                  (Outcome-return AnyHalt (Turns ready) k)))))

    -- Before the poll, the ready list is given up.
    prepare-Answers :
        (ready : List Ref) (d : Dispatcher)
        → Owned os stack fuel ready d
        → Answers os stack fuel [] d (prepare os stack fuel d).world
    unfolding prepare
    prepare-Answers ready d h =
        let u = d.unix_socket in
        let Q = Answers os stack fuel [] d in
        let w = modify u poll_for_read d.world in
        let k =
          (quietly os stack fuel ready d).changes poll_for_read u d.world
            (λ s. (refl, refl, refl, refl, refl)) h.answers in
        request_input-keeps Q (quietly os stack fuel [] d) os stack fuel d.sockets.sockets _ (
          rw h.found (
              clear_ready-Owns os (left_open os) (u ∷ []) ready d.sockets.sockets w h.ready_once
                k.0),
          release-IsUnix u (u ∷ d.sockets.sockets) d.ready.sockets w k.1,
        )

    polling-Owned :
        (ready : List Ref) (d : Dispatcher)
        → Owned os stack fuel ready d
        → let p = prepare os stack fuel d in
          Outcome AnyHalt
            (λ x. Owned os stack fuel x.2.sockets (record p { world = x.1; ready = x.2 }))
            (poll_sockets os p.sockets p.ready p.world)
    unfolding prepare clear
    polling-Owned ready d h =
        let p = prepare os stack fuel d in
        let us = d.unix_socket ∷ [] in
        let Q = Answers os stack fuel [] d in
        let q = quietly os stack fuel [] d in
        let Left = λ (v : ErrorType × World × SocketsList). Q v.1 in
        let Part = λ (v : ErrorType × World × SocketsList). IsPart d.sockets.sockets v.2.sockets in
        Outcome-map AnyHalt (λ (v : ErrorType × World × SocketsList). Left v × Part v)
          (λ x. Owned os stack fuel x.2.sockets (record p { world = x.1; ready = x.2 })) _
          (Outcome-both AnyHalt Left Part _
            (poll_sockets-keeps Q q Q q (λ e w k. q.calls (poll e) w refl k) AnyHalt os p.sockets
              p.ready p.world h.small (prepare-Answers ready d h))
            (poll_sockets-IsPart AnyHalt os p.sockets p.ready p.world h.small h.once refl))
          λ polled k. record {
            found = refl;
            ready_once = k.1.0;
            small = h.small;
            once = h.once;
            first = h.first;
            answers = (
              Owns-same os (left_open os) polled.1
                  (held-part us d.sockets.sockets polled.2.sockets k.1.1) k.0.0,
              k.0.1,
            );
          }

    pub Owned-Preserved : Preserved os stack fuel AnyHalt (Owned os stack fuel)
    Owned-Preserved = record {
      client = serve_client-Owned os stack fuel;
      from_listener = dispatcher_process-Owned;
      failing = λ ready d h. record {
        found = h.found;
        ready_once = h.ready_once;
        small = h.small;
        once = h.once;
        first = h.first;
        answers = h.answers;
      };
      polling = polling-Owned;
    }
