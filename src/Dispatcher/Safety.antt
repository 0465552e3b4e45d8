-- ===== src/Dispatcher/Safety.antt =====
-- The assertions that a run of the dispatcher passes: the size of the list that is polled, and the
-- descriptor of each new socket object.
use socket_dispatcher.Prelude.{
  ℕ, refl, ◌≢◌, Bool, true, false, Option, none, some, List, [], ◌∷◌, ◌++◌, ltb, ◌==◌, if-both,
  elim-both, length, pos, ◌==ℤ◌, is_negative, Bytes, codes, starts_with,
}
use socket_dispatcher.Socket.{is_dropped}
use socket_dispatcher.World.{Ref, Os, World, Result, halt, assertion_failed, descriptor_of}
use socket_dispatcher.World.Outcomes.{
  Outcome, NoAssertion, Outcome-return, Outcome-halt, Outcome-bind, Outcome-map, Outcome-halted,
}
use socket_dispatcher.Poller.Bounds.{
  IsPollable, put_socket-IsPollable, del_socket-IsPollable, poll_sockets-safe,
}
use socket_dispatcher.SocketUtils.{destroy}
use socket_dispatcher.Client.{process_client}
use socket_dispatcher.Config.{ApplicationConfig, line_buffer_size, read_lines, process_config}
use socket_dispatcher.Ssl.{SslGlobals}
use socket_dispatcher.Passing.Adoption.{
  overrun-NoAssertion, Received, receive_socket-Received, wrap_ssl-safe,
}
use socket_dispatcher.Dispatcher.Invariant.{Preserved, run-keeps}
use socket_dispatcher.Dispatcher.{
  Dispatcher, enter_client, wrap_client, receive_client, apply_config, receive_config,
  dispatcher_process, serve_client, prepare, run,
}

read_lines-safe :
    (line buffer input : Bytes) (c : ApplicationConfig)
    → Outcome NoAssertion (λ _. Unit) (read_lines line buffer input c)
unfolding read_lines
read_lines-safe line buffer [] c = Outcome-return NoAssertion (λ _. Unit) tt
read_lines-safe line buffer (b ∷ bs) c =
    elim-both (Outcome NoAssertion (λ _. Unit)) (b == b'\n')
      (elim-both (Outcome NoAssertion (λ _. Unit)) (ltb (length line) line_buffer_size)
        (read_lines-safe [] _ bs _) (Outcome-halt NoAssertion (λ _. Unit) overrun-NoAssertion))
      (read_lines-safe (line ++ b ∷ []) buffer bs c)

process_config-safe :
    (os : Os) (buffer input : Bytes) (c : ApplicationConfig) (g : SslGlobals) (w : World)
    → Outcome NoAssertion (λ _. Unit) (process_config os buffer input c g w)
unfolding process_config
process_config-safe os buffer input c g w =
    Outcome-bind NoAssertion (λ _. Unit) (λ _. Unit) _ _ (read_lines-safe [] buffer input c)
      λ c' _. Outcome-return NoAssertion (λ _. Unit) tt

abbrev Pollable : Dispatcher → Type 0
Pollable d = IsPollable d.sockets

abbrev PollableWith : Bool × Dispatcher → Type 0
PollableWith r = IsPollable r.1.sockets

module _ (os : Os) (stack : Bytes) (fuel : ℕ) where
  abbrev Safe : Result (Bool × Dispatcher) → Type 0
  Safe = Outcome NoAssertion PollableWith

  serve_client-Pollable :
      (r : Ref) (d : Dispatcher) → Pollable d → Pollable (serve_client os stack fuel r d)
  unfolding serve_client
  serve_client-Pollable r d h =
      if-both Pollable (process_client os r d.world).0 h (del_socket-IsPollable _ r d.sockets h)

  enter_client-Pollable :
      (r : Ref) (d : Dispatcher) → Pollable d → Pollable (enter_client os stack fuel r d)
  unfolding enter_client
  enter_client-Pollable r d h = put_socket-IsPollable r d.sockets h

  wrap_client-Safe :
      (found : Option Ref) (d : Dispatcher)
      → Received (found, d.world)
      → Pollable d
      → Safe (wrap_client os stack fuel found d)
  unfolding wrap_client
  wrap_client-Safe none d k h = Outcome-return NoAssertion PollableWith h
  wrap_client-Safe (some r) d k h =
      Outcome-bind NoAssertion (λ _. Unit) PollableWith _ _
        (wrap_ssl-safe d.globals.context r d.world k)
        λ wrapped _.
          Outcome-return NoAssertion PollableWith
            (enter_client-Pollable wrapped.0 (record d { world = destroy r wrapped.1 }) h)

  receive_client-Safe : (d : Dispatcher) → Pollable d → Safe (receive_client os stack fuel d)
  unfolding receive_client
  receive_client-Safe d h =
      Outcome-bind NoAssertion Received PollableWith _ _
        (receive_socket-Received os fuel d.unix_socket d.world)
        λ received k. wrap_client-Safe received.0 (record d { world = received.1 }) k h

  apply_config-Safe :
      (input : Bytes) (d : Dispatcher) → Pollable d → Safe (apply_config os stack fuel input d)
  unfolding apply_config
  apply_config-Safe input d h =
      Outcome-bind NoAssertion (λ _. Unit) PollableWith _ _
        (process_config-safe os stack input d.config d.globals d.world)
        λ done _. Outcome-return NoAssertion PollableWith h

  receive_config-Safe : (d : Dispatcher) → Pollable d → Safe (receive_config os stack fuel d)
  unfolding receive_config
  receive_config-Safe d h =
      if-both Safe
        (is_negative
          (os.received d.world.trace (descriptor_of d.world d.unix_socket) 4096 false).ret)
        (Outcome-return NoAssertion PollableWith h) (apply_config-Safe _ _ h)

  dispatcher_process-Safe :
      (d : Dispatcher) → Pollable d → Safe (dispatcher_process os stack fuel d)
  unfolding dispatcher_process
  dispatcher_process-Safe d h =
      let message = os.received d.world.trace (descriptor_of d.world d.unix_socket) 200 true in
      if-both Safe (is_dropped (d.world.cell d.unix_socket))
        (Outcome-return NoAssertion PollableWith h)
        (if-both Safe (message.ret ==ℤ pos 0) (Outcome-return NoAssertion PollableWith h) (
          if-both Safe (message.ret ==ℤ pos 2) (receive_client-Safe _ h) (
            if-both Safe (starts_with (codes "CONFIG") message.buffer) (receive_config-Safe _ h) (
              if-both Safe (starts_with (codes "EXIT") message.buffer)
                (Outcome-return NoAssertion PollableWith h)
                (Outcome-return NoAssertion PollableWith h)))))

  Pollable-Preserved : Preserved os stack fuel NoAssertion (λ ready. Pollable)
  unfolding prepare
  Pollable-Preserved = record {
    client = λ ready r d m t h. serve_client-Pollable r d h;
    from_listener = λ ready d h. dispatcher_process-Safe d h;
    failing = λ ready d h. h;
    polling = λ ready d h.
        Outcome-map NoAssertion (λ _. Unit) (λ x. IsPollable d.sockets) _
          (poll_sockets-safe os _ _ _ h) (λ polled _. h);
  }

  pub run-Outcome :
      (n : ℕ) (d : Dispatcher)
      → IsPollable d.sockets
      → Outcome NoAssertion (λ (d' : Dispatcher). IsPollable d'.sockets) (run os stack fuel n d)
  run-Outcome n d h =
      Outcome-map NoAssertion (λ (d' : Dispatcher). List Ref × Pollable d') Pollable _
        (run-keeps os stack fuel NoAssertion (λ ready. Pollable) Pollable-Preserved n d ([], h))
        λ d' k. k.1

  -- A dispatcher that starts with a list within its bound, and a bound of at most 1024, never fails
  -- an assertion, whatever the system answers and for any number of rounds.
  pub run-NoAssertion :
      (n : ℕ) (d : Dispatcher)
      → IsPollable d.sockets
      → run os stack fuel n d ≢ halt assertion_failed
  run-NoAssertion n d h e =
      Outcome-halted NoAssertion Pollable (run os stack fuel n d) (run-Outcome n d h) e refl
