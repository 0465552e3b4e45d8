-- ===== src/Listener/Main/Ownership/Whole.antt =====
-- The listener as a whole: every descriptor that it opens is closed once, but those of failed
-- handshakes.
use socket_dispatcher.Prelude.{
  ℕ, ◌≡◌, refl, inl, inr, true, false, Option, none, some, List, [], ◌∷◌, arith, ◌==◌, ==_refl,
  if-both, Bool-cases, ℤ, minus_one, Bytes,
}
use socket_dispatcher.World.{Ref, Os, World, sleep, call, ok}
use socket_dispatcher.World.Ledger.{open_descriptors, has, IsTidy, IsFresh}
use socket_dispatcher.World.Outcomes.{
  Outcome, Outcome-return, Outcome-halt, Outcome-bind, Outcome-map, Outcome-any, AnyHalt,
  Outcome-ok,
}
use socket_dispatcher.World.Ownership.{Owns-Quiet}
use socket_dispatcher.World.Ownership.Steps.{joined}
use socket_dispatcher.SocketsList.{put_socket, new_sockets_list}
use socket_dispatcher.SocketsList.Delete.{contains}
use socket_dispatcher.SocketUtils.Holding.{
  begin, held, nobody, clear_ready-Owns, clear_sockets-Owns,
}
use socket_dispatcher.SocketUtils.{destroy, release}
use socket_dispatcher.SocketUtils.Ownership.{Owns-same, destroy-Owns, but}
use socket_dispatcher.Ssl.{SslGlobals, create_context}
use socket_dispatcher.Ssl.Quiet.{create_context-keeps, drop_context-keeps}
use socket_dispatcher.Config.{ApplicationConfig, password}
use socket_dispatcher.SocketFactory.{require_context, default_queue_length, create_unix_listener}
use socket_dispatcher.SocketFactory.Ownership.{
  Obtained, create_tcp_ssl_listener-Obtained, create_unix_listener-Obtained,
}
use socket_dispatcher.Poller.Bounds.{IsPollable}
use socket_dispatcher.Listener.{say_goodbye}
use socket_dispatcher.Listener.Ownership.{HandshakeFailed, failed_handshakes, Answers}
use socket_dispatcher.Listener.Main.{
  Listener, create_dispatcher, my_sock_path, wait_disp_child, finish, assemble, serve, serve_caught,
  listener_main,
}
use socket_dispatcher.Listener.Main.Quiet.{
  ChildExcuses, create_dispatcher-keeps, wait_disp_child-keeps, say_goodbye-keeps,
}
use socket_dispatcher.Listener.Main.Safety.{effective_config, tcp_factory}
use socket_dispatcher.Listener.Main.Ownership.{listeners, Owned, run-Owned}

nobody_left : (t u q : Ref) → but t (but u (λ x. contains x (t ∷ u ∷ []))) q ≡ false
nobody_left t u q = ground arith

module _ (os : Os) where
  finish-Answers : (pid : Bytes) (l : Listener) → Owned os l → Answers os nobody (finish os pid l).1
  unfolding finish
  finish-Answers pid l h =
      let t = l.tcp_listener in
      let u = l.unix_listener in
      let us = listeners l in
      let sockets = l.sockets.sockets in
      let ready = l.ready.sockets in
      let Lost = failed_handshakes os in
      let live = held us ready sockets in
      let q = Owns-Quiet os live Lost in
      let w = say_goodbye sockets l.world in
      let w₁ = (wait_disp_child os (call (sleep 2) w)).1 in
      let w₂ = release (t ∷ u ∷ sockets) ready w₁ in
      let w₃ = release us sockets w₂ in
      let w₄ = destroy u w₃ in
      let k₁ : Answers os live w₁ = wait_disp_child-keeps (Answers os live) q os _ (
        q.calls (sleep 2) w refl
          (say_goodbye-keeps (Answers os live) q sockets l.world h.holds.1)) in
      let k₂ : Answers os (held us [] sockets) w₂ =
        clear_ready-Owns os Lost us ready sockets w₁ h.ready_once k₁ in
      let k₃ : Answers os (λ q. contains q us) w₃ =
        clear_sockets-Owns os Lost us sockets w₂ h.holds.0 k₂ in
      let both = h.two in
      let k₄ : Answers os (but u (λ q. contains q us)) w₄ =
        destroy-Owns os Lost (λ q. contains q us) u w₃ (rw (==_refl u) (ground arith)) k₃ in
      let k₅ : Answers os nobody (destroy t w₄) =
        Owns-same os Lost (destroy t w₄) (nobody_left t u) (
          destroy-Owns os Lost (but u (λ q. contains q us)) t w₄
            (rw (==_refl t) (ground (arith, both.0))) k₄) in
      drop_context-keeps (Answers os nobody) (Owns-Quiet os nobody Lost) l.globals (destroy t w₄) k₅

  module _ (fresh : IsFresh os) (pid : Bytes) where
    abbrev Done : ℕ × World → Type 0
    Done x = Answers os nobody x.1

    -- What the two factories give.
    abbrev Ready : Option Ref → Option Ref → World → Type 0
    Ready none u w = Unit
    Ready (some t) none w = Unit
    Ready (some t) (some u) w = ((t == u) ≡ false) × Answers os (joined u (joined t nobody)) w

    abbrev Start : Listener → Type 0
    Start l = IsPollable l.sockets × Owned os l

    assemble-Start :
        (c : ApplicationConfig) (g : SslGlobals) (tcp unix : Option Ref) (w : World)
        → Ready tcp unix w
        → Outcome AnyHalt Start (assemble os pid c g tcp unix w)
    unfolding assemble put_socket new_sockets_list
    assemble-Start c g none unix w h =
        Outcome-bind AnyHalt (λ (v : ℤ × ℤ × World). Unit) Start (create_dispatcher os minus_one w)
          _ (Outcome-any _) λ created k. Outcome-halt AnyHalt Start tt
    assemble-Start c g (some t) none w h =
        Outcome-bind AnyHalt (λ (v : ℤ × ℤ × World). Unit) Start (create_dispatcher os minus_one w)
          _ (Outcome-any _) λ created k. Outcome-halt AnyHalt Start tt
    assemble-Start c g (some t) (some u) w h =
        let live = joined u (joined t nobody) in
        let none_twice : (u == t) ≡ false = let k = h.0 in ground arith in
        let no_excuse : ChildExcuses os AnyHalt = record { replaced = tt; refused = λ w e. tt } in
        Outcome-bind AnyHalt (λ (v : ℤ × ℤ × World). Answers os live v.2) Start _ _
          (create_dispatcher-keeps (Answers os live) (Owns-Quiet os live (failed_handshakes os))
            AnyHalt os no_excuse minus_one w h.1)
          λ created k. Outcome-return AnyHalt Start (
            omega arith,
            record {
              two = (rw none_twice refl, (refl, tt));
              ready_once = tt;
              holds = (
                (rw none_twice refl, (refl, tt)),
                Owns-same os (failed_handshakes os) created.2 (λ q. ground arith) k,
              );
            },
          )

    Obtained-Ready :
        (t : Ref) (unix : Option Ref) (w : World)
        → Obtained os (joined t nobody) (failed_handshakes os) (unix, w)
        → Ready (some t) unix w
    Obtained-Ready t none w h = tt
    Obtained-Ready t (some u) w h = (let k = h.0 in ground arith, h.1)

    create_unix_listener-Ready :
        (tcp : Option Ref) (w : World)
        → Obtained os nobody (failed_handshakes os) (tcp, w)
        → Outcome AnyHalt
            (λ (x : Option Ref × World). Ready tcp x.0 x.1)
            (create_unix_listener os my_sock_path w)
    create_unix_listener-Ready none w h = Outcome-any _
    create_unix_listener-Ready (some t) w h =
        Outcome-map AnyHalt (Obtained os (joined t nobody) (failed_handshakes os))
          (λ (x : Option Ref × World). Ready (some t) x.0 x.1) _
          (create_unix_listener-Obtained os (joined t nobody) (failed_handshakes os) fresh
            my_sock_path w h.1)
          λ x k. Obtained-Ready t x.0 x.1 k

    serve-Done :
        (fuel : ℕ) (c : ApplicationConfig) (g : SslGlobals) (w : World)
        → Answers os nobody w
        → Outcome AnyHalt Done (serve os pid fuel c g tcp_factory w)
    unfolding serve
    serve-Done fuel c g w h =
        Outcome-bind AnyHalt (Obtained os nobody (failed_handshakes os)) Done _ _
          (create_tcp_ssl_listener-Obtained os nobody (failed_handshakes os) fresh 5555
            default_queue_length w h)
          λ made k.
            Outcome-bind AnyHalt (λ (x : Option Ref × World). Ready made.0 x.0 x.1) Done _ _
              (create_unix_listener-Ready made.0 made.1 k)
              λ made' k'.
                Outcome-bind AnyHalt Start Done _ _ (assemble-Start c g made.0 made'.0 made'.1 k')
                  λ l s.
                    Outcome-bind AnyHalt (Owned os) Done _ _ (run-Owned os fresh pid fuel l s.0 s.1)
                      λ l' k''. Outcome-return AnyHalt Done (finish-Answers pid l' k'')

    serve_caught-Done :
        (fuel : ℕ) (c : ApplicationConfig) (g : SslGlobals) (w : World)
        → Answers os nobody w
        → Outcome AnyHalt Done (serve_caught os pid fuel c g w)
    unfolding serve_caught require_context
    serve_caught-Done fuel c g w h = elim (Bool-cases g.context) [
      | inl e ↦ rw (e, serve_caught, require_context) (serve-Done fuel c g w h)
      | inr e ↦ rw (e, serve_caught, require_context) (Outcome-return AnyHalt Done h)
    ]

-- Where `main` of the listener returns, whoever connected and whatever the system answered, each
-- `close` was of a descriptor that was open then, so that none was closed twice, and every
-- descriptor that `socket` or `accept` gave is closed again, but those over which a TLS handshake has
-- failed. The process starts with no call made, and the system never hands out a descriptor that is
-- open.
pub listener_main-IsTidy :
    (os : Os) (pid : Bytes) (fuel : ℕ) (getopt : Bytes → List (ℕ × Bytes)) (g : SslGlobals)
    (w : World)
    → IsFresh os
    → w.trace ≡ []
    → {code : ℕ} {w' : World} → listener_main os pid fuel getopt g w ≡ ok (code, w')
    → IsTidy os w'.trace
      × ((fd : ℤ) → has (open_descriptors os w'.trace) fd ≡ true → HandshakeFailed os w'.trace fd)
unfolding listener_main
listener_main-IsTidy os pid fuel getopt g w fresh e {code} {w'} returns =
    let c = effective_config getopt in
    let created = create_context os c.ca_file c.cert_file c.key_file password g w in
    let Done = λ (x : ℕ × World). Answers os nobody x.1 in
    let k =
      create_context-keeps (Answers os nobody) (Owns-Quiet os nobody (failed_handshakes os)) os
        c.ca_file c.cert_file c.key_file password g w (begin os (failed_handshakes os) w e) in
    let h : Answers os nobody w' =
      Outcome-ok AnyHalt Done (listener_main os pid fuel getopt g w)
        (if-both (Outcome AnyHalt Done) (created.0 == 0)
          (serve_caught-Done os fresh pid fuel c created.1 created.2 k)
          (Outcome-return AnyHalt Done k))
        returns in
    (h.tidy, λ fd o. elim (h.accounted fd o) [ inl (r, l, same) ↦ cc | inr stays ↦ stays ])
