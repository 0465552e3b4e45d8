-- ===== src/Dispatcher/Main.antt =====
-- mydisp.cpp: the dispatcher's `main` around its loop.
use socket_dispatcher.Prelude.{
  ℕ, refl, ◌≢◌, true, false, Option, none, some, List, [], ◌∷◌, arith, elim-both, Bytes,
}
use socket_dispatcher.World.{Ref, Os, World, assertion_failed, out_of_fuel, Result, ok, halt, ◌>>=◌}
use socket_dispatcher.World.Outcomes.{
  Outcome, NoAssertion, Outcome-return, Outcome-halt, Outcome-bind, Outcome-halted,
}
use socket_dispatcher.SocketsList.{new_sockets_list, put_socket}
use socket_dispatcher.SocketUtils.{destroy, release}
use socket_dispatcher.Ssl.{SslGlobals}
use socket_dispatcher.Config.{create, dispatcher}
use socket_dispatcher.SocketFactory.Factories.{create_socket, create_unix_socket_factory}
use socket_dispatcher.SocketFactory.Descriptors.{create_unix_socket-Leaves}
use socket_dispatcher.Dispatcher.{Dispatcher, run, max_sockets}
use socket_dispatcher.Passing.Adoption.{fuel-NoAssertion}
use socket_dispatcher.Poller.Bounds.{IsPollable}
use socket_dispatcher.Dispatcher.Safety.{run-Outcome}

module _ (os : Os) (stack : Bytes) (fuel : ℕ) where
  -- The locals before the first round.
  unfoldable pub initial : SslGlobals → Ref → World → Dispatcher
  initial g unix_socket w = record {
    world = w;
    config = create dispatcher;
    globals = g;
    sockets = (put_socket unix_socket (new_sockets_list max_sockets)).1;
    ready = new_sockets_list max_sockets;
    unix_socket = unix_socket;
    failed = false;
  }

  -- The end of `main`: the lists go away, the second first, then the pointer to the UNIX socket.
  unfoldable pub finish : Dispatcher → World
  finish d =
      let w = release (d.unix_socket ∷ d.sockets.sockets) d.ready.sockets d.world in
      destroy d.unix_socket (release (d.unix_socket ∷ []) d.sockets.sockets w)

  -- The loop, for at most `n` rounds, and the end.
  unfoldable pub loop : ℕ → Dispatcher → Result (ℕ × World)
  loop n d = run os stack fuel n d >>= λ d'. elim d'.failed [
    | true ↦ ok (0, finish d')
    | false ↦ halt out_of_fuel
  ]

  unfoldable pub start : ℕ → SslGlobals → Option Ref × World → Result (ℕ × World)
  start n g (none, w) = ok (1, w)
  start n g (some r, w) = loop n (initial g r w)

  -- `main` on the arguments behind the program's name: the exit code and the world after it.
  unfoldable pub dispatcher_main : ℕ → List Bytes → SslGlobals → World → Result (ℕ × World)
  dispatcher_main n (path ∷ []) g w =
      create_socket os fuel (create_unix_socket_factory path) w >>= λ created. start n g created
  dispatcher_main n [] g w = ok (0, w)
  dispatcher_main n (a ∷ b ∷ args) g w = ok (0, w)

  loop-NoAssertion :
      (n : ℕ) (d : Dispatcher) → IsPollable d.sockets → Outcome NoAssertion (λ _. Unit) (loop n d)
  unfolding loop
  loop-NoAssertion n d h =
      Outcome-bind NoAssertion (λ (d' : Dispatcher). IsPollable d'.sockets) (λ _. Unit) _ _
        (run-Outcome os stack fuel n d h)
        λ d' _.
          elim-both (Outcome NoAssertion (λ _. Unit)) d'.failed
            (Outcome-return NoAssertion (λ _. Unit) tt)
            (Outcome-halt NoAssertion (λ _. Unit) fuel-NoAssertion)

  start-NoAssertion :
      (n : ℕ) (g : SslGlobals) (x : Option Ref × World)
      → Outcome NoAssertion (λ _. Unit) (start n g x)
  unfolding start initial put_socket new_sockets_list
  start-NoAssertion n g (none, w) = Outcome-return NoAssertion (λ _. Unit) tt
  start-NoAssertion n g (some r, w) = loop-NoAssertion n (initial g r w) (omega arith)

  main-Outcome :
      (n : ℕ) (args : List Bytes) (g : SslGlobals) (w : World)
      → Outcome NoAssertion (λ _. Unit) (dispatcher_main n args g w)
  unfolding dispatcher_main
  main-Outcome n [] g w = Outcome-return NoAssertion (λ _. Unit) tt
  main-Outcome n (a ∷ b ∷ args) g w = Outcome-return NoAssertion (λ _. Unit) tt
  main-Outcome n (path ∷ []) g w =
      let created = create_unix_socket-Leaves os path w in
      rw created.1 (start-NoAssertion n g created.0)

  -- The dispatcher never fails an assertion, whatever its arguments, whatever the system, the
  -- listener and the clients answer, and for any number of rounds.
  pub dispatcher_main-NoAssertion :
      (n : ℕ) (args : List Bytes) (g : SslGlobals) (w : World)
      → dispatcher_main n args g w ≢ halt assertion_failed
  dispatcher_main-NoAssertion n args g w e =
      Outcome-halted NoAssertion (λ _. Unit) (dispatcher_main n args g w) (main-Outcome n args g w)
        e refl
