-- ===== src/Dispatcher.antt =====
-- mydisp.cpp: the dispatcher process, from a turn with the listener to a round of its main loop.
pub mod Invariant
pub mod Quiet
pub mod Kind
pub mod Ownership
pub mod Full
pub mod Safety
pub mod Main
pub mod Entry
pub mod Unready
pub mod Shutdown
pub mod Setup
use socket_dispatcher.Prelude.{
  ℕ, zero, suc, Bool, true, false, Option, none, some, List, [], ◌∷◌, ◌==◌, if◌then◌else◌, take,
  pos, ◌==ℤ◌, is_negative, magnitude, Bytes, codes, starts_with,
}
use socket_dispatcher.Socket.{
  SocketType, tcp, ssl, unix, unknown, hello, is_dropped, poll_for_read, poll_for_write,
  set_client_status,
}
use socket_dispatcher.World.{Ref, Os, World, recv, call, modify, Result, ok, ◌>>=◌, descriptor_of}
use socket_dispatcher.SocketsList.{
  SocketsList, ErrorType, error, interrupted, timeout, success, put_socket, del_socket, clear,
}
use socket_dispatcher.Poller.{poll_sockets}
use socket_dispatcher.SocketUtils.{write_message, wrap_ssl, destroy, release}
use socket_dispatcher.Client.{process_client}
use socket_dispatcher.Ssl.{SslGlobals}
use socket_dispatcher.Config.{ApplicationConfig, process_config}
use socket_dispatcher.SocketFactory.Factories.{create_socket, create_received_tcp_socket_factory}

abbrev pub max_sockets : ℕ
max_sockets = 10

abbrev pub busy_message : Bytes
busy_message = codes "FAILED BUSY TRY LATER!!!!\n"

-- The globals and the locals of `main`: `appCfg`, the TLS globals, `socketsList`, `reSocketsList`,
-- `unixSocket` and `dispatcherFailed`.
pub record Dispatcher : Type 0 where
  pub world : World
  pub config : ApplicationConfig
  pub globals : SslGlobals
  pub sockets : SocketsList
  pub ready : SocketsList
  pub unix_socket : Ref
  pub failed : Bool

-- `stack` is what the stack holds where `lineBuffer` of `processConfig` comes to lie, and `fuel`
-- bounds the rounds of the loop that waits for a passed descriptor.
module _ (os : Os) (stack : Bytes) (fuel : ℕ) where
  -- A received client is entered in the list, or told that there is no place; then the local
  -- pointer to it goes away.
  unfoldable pub enter_client : Ref → Dispatcher → Dispatcher
  enter_client r d =
      let (entered, sockets') = put_socket r d.sockets in
      let w = if entered then d.world else (write_message os r busy_message d.world).1 in
      let w' = modify r (set_client_status hello) (modify r poll_for_write w) in
      record d { world = if entered then w' else destroy r w'; sockets = sockets' }

  -- The received socket is wrapped for TLS; its own object goes away and keeps the descriptor open.
  unfoldable pub wrap_client : Option Ref → Dispatcher → Result (Bool × Dispatcher)
  wrap_client none d = ok (false, d)
  wrap_client (some r) d = wrap_ssl d.globals.context r d.world >>= λ wrapped.
      ok (true, enter_client wrapped.0 (record d { world = destroy r wrapped.1 }))

  -- The branch of `dispatcherProcess` on a passed descriptor.
  unfoldable pub receive_client : Dispatcher → Result (Bool × Dispatcher)
  receive_client d =
      create_socket os fuel (create_received_tcp_socket_factory d.unix_socket) d.world
      >>= λ received. wrap_client received.0 (record d { world = received.1 })

  -- `return processConfig(...)` on the bytes received.
  unfoldable pub apply_config : Bytes → Dispatcher → Result (Bool × Dispatcher)
  apply_config input d = process_config os stack input d.config d.globals d.world >>= λ done.
      ok (done.0, record d { world = done.3; config = done.1; globals = done.2 })

  -- The branch on a configuration, of which at most 4096 bytes are taken.
  unfoldable pub receive_config : Dispatcher → Result (Bool × Dispatcher)
  receive_config d =
      let fd = descriptor_of d.world d.unix_socket in
      let input = os.received d.world.trace fd 4096 false in
      let d' = record d { world = call (recv fd 4096 false) d.world } in
      if is_negative input.ret
      then ok (false, d')
      else apply_config (take (magnitude input.ret) input.buffer) d'

  unfoldable pub dispatcher_process : Dispatcher → Result (Bool × Dispatcher)
  dispatcher_process d =
      let fd = descriptor_of d.world d.unix_socket in
      let message = os.received d.world.trace fd 200 true in
      let d' = record d { world = call (recv fd 200 true) d.world } in
      if is_dropped (d.world.cell d.unix_socket)
      then ok (false, d)
      else if message.ret ==ℤ pos 0
      then ok (false, d')
      else if message.ret ==ℤ pos 2
      then receive_client d'
      else if starts_with (codes "CONFIG") message.buffer
      then receive_config d'
      else if starts_with (codes "EXIT") message.buffer
      then ok (false, d')
      else ok (true, d')

  -- A turn with a client, which is deleted from the list if the turn drops it.
  unfoldable pub serve_client : Ref → Dispatcher → Dispatcher
  serve_client r d =
      let (keep, w) = process_client os r d.world in
      if keep
      then record d { world = w }
      else record d { world = w; sockets = (del_socket (descriptor_of w) r d.sockets).1 }

  -- The body of the loop over `reSocketsList`; false is its `break`.
  unfoldable pub serve : SocketType → Ref → Dispatcher → Result (Bool × Dispatcher)
  serve unix r d = do
    answered ← dispatcher_process d
    ok (answered.0, if answered.0 then answered.1 else record (answered.1) { failed = true })
  serve tcp r d = ok (true, serve_client r d)
  serve ssl r d = ok (true, serve_client r d)
  serve unknown r d = ok (true, d)

  unfoldable pub serve_all : List Ref → Dispatcher → Result Dispatcher
  serve_all [] d = ok d
  serve_all (r ∷ rs) d = serve (d.world.cell r).socket_type r d >>= λ served. elim served.0 [
    | true ↦ serve_all rs served.1
    | false ↦ ok served.1
  ]

  -- The loop that asks for input from all sockets but those of type UNIX.
  unfoldable pub request_input : List Ref → World → World
  request_input [] w = w
  request_input (r ∷ rs) w =
      request_input rs (elim (w.cell r).socket_type [ unix ↦ w | _ ↦ modify r poll_for_read w ])

  -- What a round does before `pollSockets`.
  unfoldable pub prepare : Dispatcher → Dispatcher
  prepare d =
      let w = modify d.unix_socket poll_for_read d.world in
      let w' = release (d.unix_socket ∷ d.sockets.sockets) d.ready.sockets w in
      record d { world = request_input d.sockets.sockets w'; ready = clear d.ready }

  -- What it does after.
  unfoldable pub react : ErrorType → Dispatcher → Result Dispatcher
  react success d = serve_all d.ready.sockets d
  react timeout d = ok d
  react error d = ok (record d { failed = true })
  react interrupted d = ok d

  -- One round of the main loop.
  unfoldable pub round : Dispatcher → Result Dispatcher
  round d =
      let p = prepare d in
      poll_sockets os p.sockets p.ready p.world >>= λ polled.
      react polled.0 (record p { world = polled.1; ready = polled.2 })

  -- At most `n` rounds: the loop ends when a round has failed.
  unfoldable pub run : ℕ → Dispatcher → Result Dispatcher
  run zero d = ok d
  run (suc n) d = elim d.failed [ true ↦ ok d | false ↦ round d >>= λ d'. run n d' ]
