-- ===== src/Dispatcher/Full.antt =====
-- What becomes of the dispatcher's list once it is full.
use socket_dispatcher.Prelude.{
  ℕ, ◌≡◌, refl, Bool, true, false, Option, none, some, List, [], if-both, pos, ◌==ℤ◌, is_negative,
  Bytes, codes, starts_with,
}
use socket_dispatcher.Socket.{is_dropped}
use socket_dispatcher.World.{Ref, Os, Result, ok, descriptor_of}
use socket_dispatcher.World.Outcomes.{
  Outcome, AnyHalt, Outcome-return, Outcome-bind, Outcome-map, Outcome-any, Outcome-ok,
}
use socket_dispatcher.Dispatcher.Invariant.{Preserved, run-keeps}
use socket_dispatcher.SocketsList.{SocketsList, put_socket, del_socket, is_full}
use socket_dispatcher.SocketUtils.{wrap_ssl, destroy}
use socket_dispatcher.Config.{process_config}
use socket_dispatcher.Passing.{receive_socket}
use socket_dispatcher.Client.{process_client}
use socket_dispatcher.Dispatcher.{
  Dispatcher, enter_client, wrap_client, receive_client, apply_config, receive_config,
  dispatcher_process, serve_client, prepare, run,
}

-- The list of the dispatcher is `l`.
abbrev Same : SocketsList → Dispatcher → Type 0
Same l d = d.sockets ≡ l

-- The same, of a dispatcher that comes with a value.
abbrev SameWith : SocketsList → Bool × Dispatcher → Type 0
SameWith l r = r.1.sockets ≡ l

-- Every return of a computation leaves the list as `l`.
abbrev Keeps : SocketsList → Result Dispatcher → Type 0
Keeps l = Outcome AnyHalt (Same l)

abbrev KeepsWith : SocketsList → Result (Bool × Dispatcher) → Type 0
KeepsWith l = Outcome AnyHalt (SameWith l)

module _ (os : Os) (stack : Bytes) (fuel : ℕ) (l : SocketsList) (full : is_full l ≡ true) where
  enter_client-full :
      (r : Ref) (d : Dispatcher) → d.sockets ≡ l → (enter_client os stack fuel r d).sockets ≡ l
  unfolding enter_client put_socket
  enter_client-full r d e = rw (e, full)

  wrap_client-full :
      (found : Option Ref) (d : Dispatcher)
      → d.sockets ≡ l
      → KeepsWith l (wrap_client os stack fuel found d)
  unfolding wrap_client
  wrap_client-full none d e = Outcome-return AnyHalt (SameWith l) e
  wrap_client-full (some r) d e =
      Outcome-bind AnyHalt (λ _. Unit) (SameWith l) _ _
        (Outcome-any (wrap_ssl d.globals.context r d.world))
        λ wrapped _.
          Outcome-return AnyHalt (SameWith l)
            (enter_client-full wrapped.0 (record d { world = destroy r wrapped.1 }) e)

  receive_client-full :
      (d : Dispatcher) → d.sockets ≡ l → KeepsWith l (receive_client os stack fuel d)
  unfolding receive_client
  receive_client-full d e =
      Outcome-bind AnyHalt (λ _. Unit) (SameWith l) _ _
        (Outcome-any (receive_socket os fuel d.unix_socket d.world))
        λ received _. wrap_client-full received.0 (record d { world = received.1 }) e

  apply_config-full :
      (input : Bytes) (d : Dispatcher)
      → d.sockets ≡ l
      → KeepsWith l (apply_config os stack fuel input d)
  unfolding apply_config
  apply_config-full input d e =
      Outcome-bind AnyHalt (λ _. Unit) (SameWith l) _ _
        (Outcome-any (process_config os stack input d.config d.globals d.world))
        λ done _. Outcome-return AnyHalt (SameWith l) e

  receive_config-full :
      (d : Dispatcher) → d.sockets ≡ l → KeepsWith l (receive_config os stack fuel d)
  unfolding receive_config
  receive_config-full d e =
      if-both (KeepsWith l)
        (is_negative
          (os.received d.world.trace (descriptor_of d.world d.unix_socket) 4096 false).ret)
        (Outcome-return AnyHalt (SameWith l) e) (apply_config-full _ _ e)

  dispatcher_process-full :
      (d : Dispatcher) → d.sockets ≡ l → KeepsWith l (dispatcher_process os stack fuel d)
  unfolding dispatcher_process
  dispatcher_process-full d e =
      let message = os.received d.world.trace (descriptor_of d.world d.unix_socket) 200 true in
      if-both (KeepsWith l) (is_dropped (d.world.cell d.unix_socket))
        (Outcome-return AnyHalt (SameWith l) e)
        (if-both (KeepsWith l) (message.ret ==ℤ pos 0) (Outcome-return AnyHalt (SameWith l) e) (
          if-both (KeepsWith l) (message.ret ==ℤ pos 2) (receive_client-full _ e) (
            if-both (KeepsWith l) (starts_with (codes "CONFIG") message.buffer)
              (receive_config-full _ e)
              (if-both (KeepsWith l) (starts_with (codes "EXIT") message.buffer)
                (Outcome-return AnyHalt (SameWith l) e) (Outcome-return AnyHalt (SameWith l) e)))))

  serve_client-full :
      (r : Ref) (d : Dispatcher) → d.sockets ≡ l → (serve_client os stack fuel r d).sockets ≡ l
  unfolding serve_client del_socket
  serve_client-full r d e =
      if-both (λ (x : Dispatcher). x.sockets ≡ l) (process_client os r d.world).0 e (rw (e, full))

  full-Preserved : Preserved os stack fuel AnyHalt (λ ready. Same l)
  unfolding prepare
  full-Preserved = record {
    client = λ ready r d m t e. serve_client-full r d e;
    from_listener = λ ready d e. dispatcher_process-full d e;
    failing = λ ready d e. e;
    polling = λ ready d e.
        Outcome-map AnyHalt (λ _. Unit) (λ x. d.sockets ≡ l) _ (Outcome-any _) (λ polled _. e);
  }

-- Once the list of a dispatcher is full it stays as it is: in whatever order clients come, speak and
-- hang up, no number of rounds of the main loop, if it returns, enters a socket in the list or takes
-- one out of it. A client that has left keeps its place for good.
pub run_full :
    (os : Os) (stack : Bytes) (fuel n : ℕ) (d : Dispatcher) {d' : Dispatcher}
    → is_full d.sockets ≡ true
    → run os stack fuel n d ≡ ok d'
    → d'.sockets ≡ d.sockets
run_full os stack fuel n d {d'} full e =
    let Kept = λ (d' : Dispatcher). (ready : List Ref) × (d'.sockets ≡ d.sockets) in
    let k : Kept d' =
      Outcome-ok AnyHalt Kept (run os stack fuel n d)
        (run-keeps os stack fuel AnyHalt (λ ready. Same d.sockets)
          (full-Preserved os stack fuel d.sockets full) n d ([], refl))
        e in
    k.1
