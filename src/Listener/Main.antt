-- ===== src/Listener/Main.antt =====
-- mylsnr.cpp: the listener's `main`, its child processes and its main loop.
pub mod Rounds
pub mod Restart
pub mod Loop
pub mod Sound
pub mod Safety
pub mod Quiet
pub mod Ownership
use socket_dispatcher.Prelude.{
  ℕ, zero, suc, ◌+◌, ◌-◌, ◌/◌, Bool, true, false, Option, none, some, List, [], ◌∷◌, ◌++◌, ◌==◌,
  if◌then◌else◌, ℤ, pos, ◌==ℤ◌, is_negative, is_positive, minus_one, Bytes, codes,
}
use socket_dispatcher.Socket.{poll_for_read}
use socket_dispatcher.World.{
  Ref, Os, World, fork, exec, wait_child, sleep, call, modify, Result, ok, halt, assertion_failed,
  null_dereference, process_replaced, out_of_fuel, ◌>>=◌, ◌>>◌,
}
use socket_dispatcher.SocketsList.{
  SocketsList, ErrorType, error, interrupted, timeout, success, put_socket, clear, new_sockets_list,
}
use socket_dispatcher.Poller.{poll_sockets}
use socket_dispatcher.SocketUtils.{destroy, release}
use socket_dispatcher.Ssl.{SslGlobals, create_context, drop_context}
use socket_dispatcher.Config.{ApplicationConfig, create, listener, password, read_command_arguments}
use socket_dispatcher.SocketFactory.{default_queue_length}
use socket_dispatcher.SocketFactory.Factories.{
  SocketFactory, create_socket, create_unix_listener_socket_factory,
  create_tcp_ssl_listener_socket_factory,
}
use socket_dispatcher.Listener.{process_sockets, say_goodbye}

abbrev pub my_sock_path : Bytes
my_sock_path = codes "dispatch.sock"

-- The globals and the locals of `main`: `appCfg`, the TLS globals, `disp_pid`, the two lists and the
-- pointers to the two listening sockets.
pub record Listener : Type 0 where
  pub world : World
  pub config : ApplicationConfig
  pub globals : SslGlobals
  pub disp_pid : ℤ
  pub sockets : SocketsList
  pub ready : SocketsList
  pub tcp_listener : Ref
  pub unix_listener : Ref

-- What a child does after `fork`: `execl` replaces it, or returns and the assertion behind it fails.
unfoldable pub run_child : Os → World → Result (ℤ × ℤ × World)
run_child os w =
    if os.executed (call (exec (codes "mydisp") my_sock_path) w).trace
    then halt process_replaced
    else halt assertion_failed

-- `create_dispatcher`: its value, `disp_pid` and the world after it.
unfoldable pub create_dispatcher : Os → ℤ → World → Result (ℤ × ℤ × World)
create_dispatcher os disp_pid w =
    let r = os.forked w.trace in
    let w' = call fork w in
    if is_negative r
    then ok (minus_one, disp_pid, w')
    else if r ==ℤ pos 0
    then run_child os w'
    else ok (pos 0, r, w')

-- `wait_disp_child`; the status of the child is only logged.
unfoldable pub wait_disp_child : Os → World → ℤ × World
wait_disp_child os w =
    let pid = os.child_waited w.trace in
    let w' = call wait_child w in
    if pid ==ℤ minus_one
    then (minus_one, w')
    else if is_positive pid
    then (pid, w')
    else (pos 0, w')

-- The loop that asks for input from all sockets.
unfoldable pub request_all : List Ref → World → World
request_all [] w = w
request_all (r ∷ rs) w = request_all rs (modify r poll_for_read w)

-- The defaults, where the command line is not complete.
unfoldable pub complete : ApplicationConfig → ApplicationConfig
complete c = if c.is_ok then c else record c {
  ca_file = codes "../CA-cert.pem";
  cert_file = codes "../server-cert.pem";
  key_file = codes "../server-key.pem";
}

module _ (os : Os) (pid : Bytes) where
  -- The branch on a timeout: a child that has ended is replaced.
  unfoldable pub restart : Listener → Result (Bool × Listener)
  restart l =
      let waited = wait_disp_child os l.world in
      if is_positive waited.0
      then (create_dispatcher os l.disp_pid waited.1 >>= λ created.
          ok (true, record l { world = created.2; disp_pid = created.1 }))
      else ok (true, record l { world = waited.1 })

  -- What a round does after `pollSockets`; false is the `break`.
  unfoldable pub react : ErrorType → Listener → Result (Bool × Listener)
  react success l = process_sockets os pid l.config l.ready.sockets l.sockets l.world >>= λ done.
      ok (true, record l { world = done.1; sockets = done.0 })
  react timeout l = restart l
  react interrupted l = ok (true, l)
  react error l = ok (false, l)

  -- What it does before.
  unfoldable pub prepare : Listener → Listener
  prepare l =
      let kept = l.tcp_listener ∷ l.unix_listener ∷ l.sockets.sockets in
      record l {
        world = request_all l.sockets.sockets (release kept l.ready.sockets l.world);
        ready = clear l.ready;
      }

  unfoldable pub round : Listener → Result (Bool × Listener)
  round l =
      let p = prepare l in
      poll_sockets os p.sockets p.ready p.world >>= λ polled.
      react polled.0 (record p { world = polled.1; ready = polled.2 })

  -- The main loop, for at most `fuel` rounds.
  unfoldable pub run : ℕ → Listener → Result Listener
  run zero l = halt out_of_fuel
  run (suc fuel) l = elim (os.exit_requested l.world.trace) [
    | true ↦ ok l
    | false ↦ round l >>= λ after. elim after.0 [ true ↦ run fuel after.1 | false ↦ ok after.1 ]
  ]

  -- What follows the loop: the goodbye, the objects that go away at the end of the block (the lists
  -- first, then the two local pointers), and the context.
  unfoldable pub finish : Listener → SslGlobals × World
  finish l =
      let w = say_goodbye l.sockets.sockets l.world in
      let w₁ = (wait_disp_child os (call (sleep 2) w)).1 in
      let listeners = l.tcp_listener ∷ l.unix_listener ∷ [] in
      let w₂ = release (listeners ++ l.sockets.sockets) l.ready.sockets w₁ in
      let w₃ = release listeners l.sockets.sockets w₂ in
      drop_context l.globals (destroy l.tcp_listener (destroy l.unix_listener w₃))

  -- The block of `main` after the two sockets are made, up to the first round. A null pointer in the
  -- list is followed in the first round, or by the goodbye.
  unfoldable pub assemble :
      ApplicationConfig → SslGlobals → Option Ref → Option Ref → World → Result Listener
  assemble c g tcp unix w = create_dispatcher os minus_one w >>= λ created. elim tcp [
    | none ↦ halt null_dereference
    | some t ↦ elim unix [
      | none ↦ halt null_dereference
      | some u ↦
          let l = (put_socket t (new_sockets_list 100)).1 in
          ok (record {
            world = created.2;
            config = c;
            globals = g;
            disp_pid = created.1;
            sockets = (put_socket u l).1;
            ready = new_sockets_list 100;
            tcp_listener = t;
            unix_listener = u;
          })
    ]
  ]

  -- What follows once the first factory is there. The listening sockets wait for no message: the
  -- bound on these is 0.
  unfoldable pub serve :
      ℕ → ApplicationConfig → SslGlobals → SocketFactory → World → Result (ℕ × World)
  serve fuel c g tcp_factory w = do
    tcp ← create_socket os 0 tcp_factory w
    unix ← create_socket os 0 (create_unix_listener_socket_factory my_sock_path) tcp.1
    l ← assemble c g tcp.0 unix.0 unix.1
    l' ← run fuel l
    ok (0, (finish l').1)

  -- From the TLS context on. The exception that the first factory throws where there is no context
  -- is caught by `main`.
  unfoldable pub serve_caught : ℕ → ApplicationConfig → SslGlobals → World → Result (ℕ × World)
  serve_caught fuel c g w =
      elim (create_tcp_ssl_listener_socket_factory g.context 5555 default_queue_length) [
        | ok factory ↦ serve fuel c g factory w
        | halt h ↦ ok (1, w)
      ]

  -- `main`: the exit code and the world after it.
  unfoldable pub listener_main :
      ℕ → (Bytes → List (ℕ × Bytes)) → SslGlobals → World → Result (ℕ × World)
  listener_main fuel getopt g w =
      let c = complete (read_command_arguments getopt (create listener)) in
      let created = create_context os c.ca_file c.cert_file c.key_file password g w in
      if created.0 == 0 then serve_caught fuel c created.1 created.2 else ok (1, created.2)
