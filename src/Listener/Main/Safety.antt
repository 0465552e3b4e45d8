-- ===== src/Listener/Main/Safety.antt =====
-- The listener as a whole: which assertions it may fail, and how it ends.
use socket_dispatcher.Prelude.{
  ℕ, suc, ◌≤◌, ◌<◌, ◌≡◌, refl, ◌⊎◌, inl, inr, true, Option, none, List, arith, ◌==◌, if-both,
  Bool-cases, length, ℤ, minus_one, Bytes,
}
use socket_dispatcher.World.{Ref, Trace, Os, World, Halt, ok, halt}
use socket_dispatcher.World.Outcomes.{
  Outcome, Outcome-return, Outcome-halt, Outcome-bind, Outcome-option, Outcome-cases, AnyHalt,
  Outcome-ok,
}
use socket_dispatcher.SocketsList.{new_sockets_list, put_socket}
use socket_dispatcher.Ssl.{SslGlobals, create_context}
use socket_dispatcher.Ssl.Quiet.{create_context-keeps}
use socket_dispatcher.Config.{ApplicationConfig, create, listener, read_command_arguments, password}
use socket_dispatcher.SocketFactory.Factories.{SocketFactory, tcp_ssl_listener_socket_factory}
use socket_dispatcher.SocketFactory.{require_context, default_queue_length}
use socket_dispatcher.Listener.{config_message}
use socket_dispatcher.Listener.Steps.{Excuses}
use socket_dispatcher.Listener.Main.{
  Listener, my_sock_path, complete, run, assemble, serve, serve_caught, listener_main,
}
use socket_dispatcher.Listener.Main.Quiet.{ChildExcuses, create_dispatcher-keeps}
use socket_dispatcher.Listener.Main.Rounds.{Running}
use socket_dispatcher.Listener.Stable.{Stable-Quiet}
use socket_dispatcher.Listener.Main.Loop.{run-keeps, run-ends}
use socket_dispatcher.Listener.Main.Sound.{
  IsSound, IsSound-Stable, IsExpected, MayRefuse, Created, create_tcp_ssl_listener-Created,
  create_unix_listener-Created,
}

-- The factory of the socket for clients.
abbrev pub tcp_factory : SocketFactory
tcp_factory =
    tcp_ssl_listener_socket_factory (record { port = 5555; queue_length = default_queue_length })

-- The configuration of the listener on a command line.
abbrev pub effective_config : (Bytes → List (ℕ × Bytes)) → ApplicationConfig
effective_config getopt = complete (read_command_arguments getopt (create listener))

module _ (os : Os) (pid : Bytes) (replaced : (t : Trace) → os.executed t ≡ true)
    (c : ApplicationConfig) (fits : length (config_message pid c) < 4096) (limit : ℕ)
    (late : (t : Trace) → limit ≤ length t → os.exit_requested t ≡ true) where
  excuses : Excuses IsSound (IsExpected os) pid c
  excuses = record {
    at_class = λ r w h on no. let k = h r on in cc;
    at_config = λ no. ground arith;
  }

  child_excuses : ChildExcuses os (IsExpected os)
  child_excuses = record { replaced = inl refl; refused = λ w e. let k = replaced w.trace in cc }

  Sound : Listener → Type 0
  Sound l = Running c IsSound l

  assemble-Sound :
      (g : SslGlobals) (tcp_ref unix_ref : Option Ref) (w : World)
      → (tcp_ref ≡ none → MayRefuse os)
      → (unix_ref ≡ none → MayRefuse os)
      → IsSound w
      → Outcome (IsExpected os) Sound (assemble os pid c g tcp_ref unix_ref w)
  unfolding assemble Sound put_socket new_sockets_list
  assemble-Sound g tcp_ref unix_ref w refused refused' h =
      Outcome-bind (IsExpected os) (λ (v : ℤ × ℤ × World). IsSound v.2) Sound _ _
        (create_dispatcher-keeps IsSound (Stable-Quiet IsSound IsSound-Stable) (IsExpected os) os
          child_excuses minus_one w h)
        λ created k.
          Outcome-option (IsExpected os) (λ (o : Option Ref). o ≡ none → MayRefuse os) Sound tcp_ref
            _ _ refused (λ r. Outcome-halt (IsExpected os) Sound (inr (refl, r refl)))
            λ t _.
              Outcome-option (IsExpected os) (λ (o : Option Ref). o ≡ none → MayRefuse os) Sound
                unix_ref _ _ refused' (λ r. Outcome-halt (IsExpected os) Sound (inr (refl, r refl)))
                λ u _. Outcome-return (IsExpected os) Sound (omega arith, refl, k)

  run-Sound : (l : Listener) → Sound l → Outcome (IsExpected os) Sound (run os pid (suc limit) l)
  unfolding Sound
  run-Sound l h =
      run-ends IsSound IsSound-Stable (IsExpected os) os pid c excuses child_excuses limit 0 limit l
        late (omega arith) (h.0, h.1, (h.2, omega arith))

  serve-Expected :
      (g : SslGlobals) (w : World)
      → IsSound w
      → Outcome (IsExpected os) (λ _. Unit) (serve os pid (suc limit) c g tcp_factory w)
  unfolding serve
  serve-Expected g w h =
      let Any = λ (v : ℕ × World). Unit in
      Outcome-bind (IsExpected os) (Created os) Any _ _
        (create_tcp_ssl_listener-Created os 5555 default_queue_length w h)
        λ made k.
          Outcome-bind (IsExpected os) (Created os) Any _ _
            (create_unix_listener-Created os my_sock_path made.1 k.0)
            λ made' k'.
              Outcome-bind (IsExpected os) Sound Any _ _
                (assemble-Sound g made.0 made'.0 made'.1 k.1 k'.1 k'.0)
                λ l s.
                  Outcome-bind (IsExpected os) Sound Any _ _ (run-Sound l s)
                    λ l' _. Outcome-return (IsExpected os) Any tt

  serve_caught-Expected :
      (g : SslGlobals) (w : World)
      → IsSound w
      → Outcome (IsExpected os) (λ _. Unit) (serve_caught os pid (suc limit) c g w)
  unfolding serve_caught require_context
  serve_caught-Expected g w h = elim (Bool-cases g.context) [
    | inl e ↦ rw (e, serve_caught, require_context) (serve-Expected g w h)
    | inr e ↦ rw (e, serve_caught, require_context) (Outcome-return (IsExpected os) (λ _. Unit) tt)
  ]

-- Where the rounds of the listener return, whoever connects and whatever the system answers, its
-- list is again within its bound and one that the poller accepts, its configuration is the same, and
-- each of its listening sockets is of a class that accepts, if this held before.
pub run-Running :
    (os : Os) (pid : Bytes) (fuel : ℕ) (l : Listener) {l' : Listener}
    → Running l.config IsSound l
    → run os pid fuel l ≡ ok l'
    → Running l.config IsSound l'
run-Running os pid fuel l h e =
    let x : Excuses IsSound AnyHalt pid l.config = record {
      at_class = λ r w k on no. tt;
      at_config = λ no. tt;
    } in
    let y : ChildExcuses os AnyHalt = record { replaced = tt; refused = λ w k. tt } in
    Outcome-ok AnyHalt (Running l.config IsSound) (run os pid fuel l)
      (run-keeps IsSound IsSound-Stable AnyHalt os pid l.config x y fuel l tt h) e

-- A listener whose message of the configuration fits its buffer, and which starts with no listening
-- socket of a class that does not accept, on a system that runs the dispatcher's program and asks
-- the listener to exit at its call `limit` at the latest, ends within `limit` + 1 rounds: it returns,
-- or it is a child that is replaced, or it follows a null pointer, which happens only on a system that
-- refuses a socket, a `bind` or a `listen` at some point. No assertion fails.
pub listener_main-Ends :
    (os : Os) (pid : Bytes) (limit : ℕ) (getopt : Bytes → List (ℕ × Bytes)) (g : SslGlobals)
    (w : World)
    → IsSound w
    → ((t : Trace) → os.executed t ≡ true)
    → ((t : Trace) → limit ≤ length t → os.exit_requested t ≡ true)
    → length (config_message pid (effective_config getopt)) < 4096
    → let m = listener_main os pid (suc limit) getopt g w in
      ((x : ℕ × World) × (m ≡ ok x)) ⊎ ((h : Halt) × (m ≡ halt h) × IsExpected os h)
unfolding listener_main serve_caught
listener_main-Ends os pid limit getopt g w sound replaced late fits =
    let c = effective_config getopt in
    let created = create_context os c.ca_file c.cert_file c.key_file password g w in
    let k =
      create_context-keeps IsSound (Stable-Quiet IsSound IsSound-Stable) os c.ca_file c.cert_file
        c.key_file password g w sound in
    let Any = λ (v : ℕ × World). Unit in
    Outcome-cases (IsExpected os) Any (listener_main os pid (suc limit) getopt g w) (
      if-both (Outcome (IsExpected os) Any) (created.0 == 0)
        (serve_caught-Expected os pid replaced c fits limit late created.1 created.2 k)
        (Outcome-return (IsExpected os) Any tt))
