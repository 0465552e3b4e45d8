-- ===== src/Dispatcher/Ownership/Whole.antt =====
-- The dispatcher as a whole: every descriptor that it opens or receives is closed once.
use socket_dispatcher.Prelude.{
  ℕ, ◌≡◌, refl, ap, ◌∙◌, inl, inr, true, Option, none, some, List, [], ◌∷◌, arith, ==_refl,
  elim-both, ℤ, Bytes,
}
use socket_dispatcher.Socket.{Socket, unix}
use socket_dispatcher.World.{Ref, Os, World, ok}
use socket_dispatcher.World.Ledger.{open_descriptors, has, IsTidy, IsFresh, BringsNew}
use socket_dispatcher.World.Outcomes.{
  Outcome, Outcome-return, Outcome-halt, Outcome-bind, Outcome-both, AnyHalt, Outcome-ok,
}
use socket_dispatcher.World.Ownership.{Owns}
use socket_dispatcher.SocketsList.{put_socket, new_sockets_list}
use socket_dispatcher.SocketsList.Delete.{contains}
use socket_dispatcher.SocketUtils.{destroy, release}
use socket_dispatcher.SocketUtils.Ownership.{Owns-same, destroy-Owns}
use socket_dispatcher.SocketUtils.Holding.{
  begin, held, nobody, clear_ready-Owns, clear_sockets-Owns,
}
use socket_dispatcher.Ssl.{SslGlobals}
use socket_dispatcher.SocketFactory.{create_unix_socket}
use socket_dispatcher.SocketFactory.Descriptors.{Made, create_unix_socket-Leaves}
use socket_dispatcher.SocketFactory.Ownership.{Settled, create_unix_socket-Settled}
use socket_dispatcher.Dispatcher.{run, Dispatcher}
use socket_dispatcher.Dispatcher.Invariant.{Preserved, InvSome, run-keeps}
use socket_dispatcher.Dispatcher.Main.{initial, finish, loop, start, dispatcher_main}
use socket_dispatcher.Dispatcher.Ownership.{LeftOpen, left_open, Owned}
use socket_dispatcher.Dispatcher.Ownership.Rounds.{Owned-Preserved}

module _ (os : Os) (stack : Bytes) (fuel : ℕ) where
  abbrev Ended : World → Type 0
  Ended = Owns os nobody (left_open os)

  finish-Ended :
      (ready : List Ref) (d : Dispatcher)
      → Owned os stack fuel ready d
      → Ended (finish os stack fuel d)
  unfolding finish
  finish-Ended ready d h =
      let u = d.unix_socket in
      let us = u ∷ [] in
      let sockets = d.sockets.sockets in
      let Lost = left_open os in
      let w₁ = release (u ∷ sockets) d.ready.sockets d.world in
      let w₂ = release us sockets w₁ in
      let k₁ : Owns os (held us [] sockets) Lost w₁ =
        rw h.found (clear_ready-Owns os Lost us ready sockets d.world h.ready_once h.answers.0) in
      let k₂ : Owns os (λ q. contains q us) Lost w₂ =
        clear_sockets-Owns os Lost us sockets w₁ h.once k₁ in
      Owns-same os Lost (destroy u w₂) (λ q. ground arith)
        (destroy-Owns os Lost (λ q. contains q us) u w₂ (rw (==_refl u) refl) k₂)

  abbrev Done : ℕ × World → Type 0
  Done x = Ended x.1

  -- The socket that the first factory returns is of type UNIX.
  abbrev Typed : Option Ref × World → Type 0
  Typed (none, w) = Unit
  Typed (some r, w) = (w.cell r).socket_type ≡ unix

  Made-Typed :
      (s : Socket) (w : World) (x : Option Ref × World)
      → s.socket_type ≡ unix
      → Made s w x
      → Typed x
  Made-Typed s w (none, w') t h = tt
  Made-Typed s w (some r, w') t h = ap (λ (o : Socket). o.socket_type) h.1 ∙ t

  create_unix_socket-Typed :
      (path : Bytes) (w : World) → Outcome AnyHalt Typed (create_unix_socket os path w)
  create_unix_socket-Typed path w =
      let (x, e, o, made) = create_unix_socket-Leaves os path w in
      rw e (Outcome-return AnyHalt Typed (Made-Typed _ w x refl made))

  -- The dispatcher before its first round.
  pub initial-Owned :
      (g : SslGlobals) (r : Ref) (w : World)
      → Settled os nobody (left_open os) (some r, w)
      → Typed (some r, w)
      → Owned os stack fuel [] (initial os stack fuel g r w)
  unfolding initial put_socket new_sockets_list
  initial-Owned g r w h t = record {
    found = refl;
    ready_once = tt;
    small = omega arith;
    once = (refl, tt);
    first = ([], refl);
    answers = (
      Owns-same os (left_open os) w (λ q. ground arith) h.1,
      (h.1.older r (rw (==_refl r) refl), t),
    );
  }

  module _ (brings : BringsNew os) (fresh : IsFresh os) where
    abbrev Steps : Preserved os stack fuel AnyHalt (Owned os stack fuel)
    Steps = Owned-Preserved os stack fuel brings

    abbrev pub OwnedSome : Dispatcher → Type 0
    OwnedSome = InvSome os stack fuel AnyHalt (Owned os stack fuel) Steps

    pub run-OwnedSome :
        (n : ℕ) (d : Dispatcher)
        → Owned os stack fuel [] d
        → Outcome AnyHalt OwnedSome (run os stack fuel n d)
    run-OwnedSome n d h = run-keeps os stack fuel AnyHalt (Owned os stack fuel) Steps n d ([], h)

    loop-Done :
        (n : ℕ) (d : Dispatcher)
        → Owned os stack fuel [] d
        → Outcome AnyHalt Done (loop os stack fuel n d)
    unfolding loop
    loop-Done n d h = Outcome-bind AnyHalt OwnedSome Done _ _ (run-OwnedSome n d h) λ d' k.
        elim-both (Outcome AnyHalt Done) d'.failed
          (Outcome-return AnyHalt Done (finish-Ended k.0 d' k.1)) (Outcome-halt AnyHalt Done tt)

    start-Done :
        (n : ℕ) (g : SslGlobals) (x : Option Ref × World)
        → Settled os nobody (left_open os) x
        → Typed x
        → Outcome AnyHalt Done (start os stack fuel n g x)
    unfolding start
    start-Done n g (none, w) h t = Outcome-return AnyHalt Done h
    start-Done n g (some r, w) h t =
        loop-Done n (initial os stack fuel g r w) (initial-Owned g r w h t)

    abbrev pub WellMade : Option Ref × World → Type 0
    WellMade x = Settled os nobody (left_open os) x × Typed x

    pub create_unix_socket-WellMade :
        (path : Bytes) (w : World)
        → w.trace ≡ []
        → Outcome AnyHalt WellMade (create_unix_socket os path w)
    create_unix_socket-WellMade path w e =
        Outcome-both AnyHalt (Settled os nobody (left_open os)) Typed _
          (create_unix_socket-Settled os nobody (left_open os) fresh path w
            (λ t fd a refused. inl (inl (a, refl, refused))) (begin os (left_open os) w e))
          (create_unix_socket-Typed path w)

    main-Done :
        (n : ℕ) (args : List Bytes) (g : SslGlobals) (w : World)
        → w.trace ≡ []
        → Outcome AnyHalt Done (dispatcher_main os stack fuel n args g w)
    unfolding dispatcher_main
    main-Done n [] g w e = Outcome-return AnyHalt Done (begin os (left_open os) w e)
    main-Done n (a ∷ b ∷ args) g w e = Outcome-return AnyHalt Done (begin os (left_open os) w e)
    main-Done n (path ∷ []) g w e =
        Outcome-bind AnyHalt WellMade Done _ _ (create_unix_socket-WellMade path w e)
          λ created k. start-Done n g created k.0 k.1

-- Where `main` of the dispatcher returns, whatever its arguments, the listener, the clients and the
-- system, each `close` was of a descriptor that was open then, so that none was closed twice, and
-- every descriptor that `socket` gave or a message brought is closed again, but those on which a
-- `connect` has failed, and descriptor 0 where a message has brought it. The process starts with no
-- call made, and neither the system nor a message hands out a descriptor that is open.
pub dispatcher_main-IsTidy :
    (os : Os) (stack : Bytes) (fuel n : ℕ) (args : List Bytes) (g : SslGlobals) (w : World)
    → IsFresh os
    → BringsNew os
    → w.trace ≡ []
    → {code : ℕ} {w' : World} → dispatcher_main os stack fuel n args g w ≡ ok (code, w')
    → IsTidy os w'.trace
      × ((fd : ℤ) → has (open_descriptors os w'.trace) fd ≡ true → LeftOpen os w'.trace fd)
dispatcher_main-IsTidy os stack fuel n args g w fresh brings e {code} {w'} returns =
    let h : Ended os stack fuel w' =
      Outcome-ok AnyHalt (Done os stack fuel) (dispatcher_main os stack fuel n args g w)
        (main-Done os stack fuel brings fresh n args g w e) returns in
    (h.tidy, λ fd o. elim (h.accounted fd o) [ inl (r, l, same) ↦ cc | inr left ↦ left ])
