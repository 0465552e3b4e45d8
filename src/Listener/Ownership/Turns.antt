-- ===== src/Listener/Ownership/Turns.antt =====
-- What `processSockets` does to the objects that the listener holds.
use mathlib.Core.Path.{subst}
use socket_dispatcher.Prelude.{
  ◌≡◌, refl, sym, Bool, true, false, Option, List, [], ◌∷◌, arith, ==_refl, elim-both, Bytes,
}
use socket_dispatcher.Socket.{SocketType, tcp, ssl, unix, unknown, is_dropped}
use socket_dispatcher.World.{Ref, Os, World}
use socket_dispatcher.World.Ledger.{IsFresh}
use socket_dispatcher.World.Outcomes.{
  Outcome, Outcome-return, Outcome-bind, Outcome-map, Outcome-option, AnyHalt,
}
use socket_dispatcher.World.Ownership.{Owns-Quiet}
use socket_dispatcher.World.Ownership.Steps.{joined}
use socket_dispatcher.SocketsList.{SocketsList, put_socket}
use socket_dispatcher.SocketsList.Delete.{contains}
use socket_dispatcher.SocketUtils.Holding.{held, Holds, put-Holds, del-Holds}
use socket_dispatcher.Config.{ApplicationConfig}
use socket_dispatcher.Listener.{process_dispatcher_connection, process_listener, process_sockets}
use socket_dispatcher.Listener.Quiet.{send_config-keeps}
use socket_dispatcher.Listener.Ownership.{
  failed_handshakes, Answers, Accepted, accept_connection-Accepted,
  process_client_connection-Answers,
}

module _ (os : Os) (us ready : List Ref) where
  abbrev Held : List Ref → World → Type 0
  Held = Holds os (failed_handshakes os) us ready

  module _ (fresh : IsFresh os) (pid : Bytes) (c : ApplicationConfig) where
    abbrev HoldsBoth : SocketsList × World → Type 0
    HoldsBoth x = Held x.0.sockets x.1

    process_dispatcher_connection-Holds :
        (r : Ref) (l : SocketsList) (w : World)
        → Held l.sockets w
        → Outcome AnyHalt
            (λ (x : Bool × SocketsList × World). Held x.1.sockets x.2)
            (process_dispatcher_connection os pid c r l w)
    unfolding process_dispatcher_connection
    process_dispatcher_connection-Holds r l w h =
        let live = held us ready l.sockets in
        let Done = λ (x : Bool × SocketsList × World). Held x.1.sockets x.2 in
        Outcome-bind AnyHalt (Accepted os live) Done _ _
          (accept_connection-Accepted os live fresh r w h.1)
          λ accepted k.
            Outcome-option AnyHalt (λ (o : Option Ref). Accepted os live (o, accepted.1)) Done
              accepted.0 _ _ k (λ k'. Outcome-return AnyHalt Done (h.0, k'))
              λ s k'.
                let put = put_socket s l in
                let passes = Owns-Quiet os (joined s live) (failed_handshakes os) in
                Outcome-map AnyHalt
                  (λ (x : Bool × SocketsList × World). (x.1 ≡ put.1) × Held put.1.sockets x.2) Done
                  _
                  (send_config-keeps (Answers os (joined s live)) passes AnyHalt
                    (Held put.1.sockets) os pid c s put.0 put.1 accepted.1 (λ long. tt)
                    (λ v m. put-Holds os (failed_handshakes os) us ready s l v k'.0 h.0 m) k'.1)
                  λ sent m. subst (λ (m : SocketsList). Held m.sockets sent.2) (sym m.0) m.1

    process_listener-Holds :
        (t : SocketType) (on : Bool) (r : Ref) (l : SocketsList) (w : World)
        → Held l.sockets w
        → Outcome AnyHalt HoldsBoth (process_listener os pid c t on r l w)
    unfolding process_listener
    process_listener-Holds tcp true r l w h =
        let live = held us ready l.sockets in
        Outcome-bind AnyHalt (λ (done : Bool × World). Answers os live done.1) HoldsBoth _ _
          (process_client_connection-Answers os live fresh r l.sockets w h.1)
          λ done k. Outcome-return AnyHalt HoldsBoth (h.0, k)
    process_listener-Holds unix true r l w h =
        Outcome-bind AnyHalt (λ (x : Bool × SocketsList × World). Held x.1.sockets x.2) HoldsBoth _
          _ (process_dispatcher_connection-Holds r l w h)
          λ done k. Outcome-return AnyHalt HoldsBoth k
    process_listener-Holds ssl true r l w h = Outcome-return AnyHalt HoldsBoth h
    process_listener-Holds unknown true r l w h = Outcome-return AnyHalt HoldsBoth h
    process_listener-Holds tcp false r l w h = Outcome-return AnyHalt HoldsBoth h
    process_listener-Holds unix false r l w h = Outcome-return AnyHalt HoldsBoth h
    process_listener-Holds ssl false r l w h = Outcome-return AnyHalt HoldsBoth h
    process_listener-Holds unknown false r l w h = Outcome-return AnyHalt HoldsBoth h

    pub process_sockets-Holds :
        (rs : List Ref) (l : SocketsList) (w : World)
        → ((q : Ref) → contains q rs ≡ true → contains q ready ≡ true)
        → Held l.sockets w
        → Outcome AnyHalt HoldsBoth (process_sockets os pid c rs l w)
    unfolding process_sockets
    process_sockets-Holds [] l w m h = Outcome-return AnyHalt HoldsBoth h
    process_sockets-Holds (r ∷ rs) l w m h =
        let there : contains r ready ≡ true = m r (rw (==_refl r) refl) in
        let others : (q : Ref) → contains q rs ≡ true → contains q ready ≡ true =
          λ q k. m q (ground arith) in
        elim-both (Outcome AnyHalt HoldsBoth) (is_dropped (w.cell r))
          (process_sockets-Holds rs _ w others
            (del-Holds os (failed_handshakes os) us ready r l w there h))
          (Outcome-bind AnyHalt HoldsBoth HoldsBoth _ _
            (process_listener-Holds (w.cell r).socket_type (w.cell r).listen_socket r l w h)
            λ done k. process_sockets-Holds rs done.0 done.1 others k)
