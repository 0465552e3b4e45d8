-- ===== src/SocketFactory/Ownership.antt =====
-- The listening sockets that the factories return answer for their descriptors.
use socket_dispatcher.Prelude.{
  ℕ, ◌≡◌, refl, inl, inr, Bool, true, false, Option, none, some, ◌∷◌, if-both, if-cases,
  Option-cases, ℤ, pos, negsuc, is_negative, Bytes, c_string,
}
use socket_dispatcher.Socket.{
  plain, SocketType, tcp, unix, SocketClass, tcp_ssl_listener_socket, unix_listener_socket,
  fresh_socket, new_socket,
}
use socket_dispatcher.World.{
  Ref, Trace, af_inet, af_unix, Address, any_host, unix_path, Os, World, open_socket,
  set_reuse_address, bind, listen, connect, get_flags, set_flags, unlink, call,
}
use socket_dispatcher.World.Ledger.{IsFresh}
use socket_dispatcher.World.Outcomes.{Outcome, Outcome-return, Outcome-map, AnyHalt}
use socket_dispatcher.World.Quiet.{Quiet}
use socket_dispatcher.World.Ownership.{Loss, Owns, unchanged-Owns}
use socket_dispatcher.World.Ownership.Steps.{
  Pending, Pending-Quiet, Pending-lost, enter-Pending, alloc-Owns, joined, next-is_new,
}
use socket_dispatcher.SocketFactory.{
  create_unix_socket, set_nonblocking, make_object, bind_and_listen, create_tcp,
  create_tcp_ssl_listener, create_unix_listener, sun_path, uint16,
}

module _ (os : Os) (live : Ref → Bool) (Lost : Loss) where
  -- A socket that is returned is new and answers for its descriptor.
  abbrev pub Obtained : Option Ref × World → Type 0
  Obtained (none, w) = Unit
  Obtained (some s, w) = (live s ≡ false) × Owns os (joined s live) Lost w

  -- The same, where all else that is open has its object if there is no socket.
  abbrev pub Settled : Option Ref × World → Type 0
  Settled (none, w) = Owns os live Lost w
  Settled (some s, w) = (live s ≡ false) × Owns os (joined s live) Lost w

  make_object-Settled :
      (c : SocketClass) (fd : ℤ) (t : SocketType) (listening : Bool) (w : World)
      → is_negative fd ≡ false
      → Pending os live Lost fd w
      → Outcome AnyHalt Settled (make_object c fd t listening w)
  unfolding make_object new_socket
  make_object-Settled c (pos n) t listening w opened h = Outcome-return AnyHalt Settled (
    next-is_new os live _ w h.others,
    alloc-Owns os live Lost (fresh_socket c (pos n) t listening) w refl h,
  )
  make_object-Settled c (negsuc n) t listening w opened h = cc

  Settled-Obtained : (x : Option Ref × World) → Settled x → Obtained x
  Settled-Obtained (none, w) h = tt
  Settled-Obtained (some s, w) h = h

  bind_and_listen-Obtained :
      (c : SocketClass) (t : SocketType) (fd : ℤ) (address : Address) (queue : ℕ) (w : World)
      → is_negative fd ≡ false
      → Pending os live Lost fd w
      → Outcome AnyHalt Obtained (bind_and_listen os c t fd address queue w)
  unfolding bind_and_listen
  bind_and_listen-Obtained c t fd address queue w opened h =
      let P = Outcome AnyHalt Obtained in
      let q = Pending-Quiet os live Lost fd in
      let w₁ = call (bind fd address) w in
      if-both P (is_negative (os.bound w.trace fd address)) (Outcome-return AnyHalt Obtained tt) (
        if-both P (is_negative (os.listened w₁.trace fd queue)) (Outcome-return AnyHalt Obtained tt)
          (Outcome-map AnyHalt Settled Obtained _
            (make_object-Settled c fd t true _ opened
              (q.calls (listen fd queue) w₁ refl (q.calls (bind fd address) w refl h)))
            Settled-Obtained))

  module _ (fresh : IsFresh os) where
    pub create_tcp_ssl_listener-Obtained :
        (port queue : ℕ) (w : World)
        → Owns os live Lost w
        → Outcome AnyHalt Obtained (create_tcp_ssl_listener os port queue w)
    unfolding create_tcp_ssl_listener create_tcp
    create_tcp_ssl_listener-Obtained port queue w h =
        let fd = os.opened w.trace af_inet in
        let w₁ = call (open_socket af_inet) w in
        if-cases (Outcome AnyHalt Obtained) (is_negative fd)
          (λ refused. Outcome-return AnyHalt Obtained tt)
          λ opened.
            bind_and_listen-Obtained tcp_ssl_listener_socket tcp fd (any_host (uint16 port))
              (uint16 queue) _ opened
              ((Pending-Quiet os live Lost fd).calls (set_reuse_address fd) w₁ refl (
                enter-Pending os live Lost fd (open_socket af_inet) w opened refl (tt, h.tidy)
                  (fresh.opened w.trace af_inet) h))

    pub create_unix_listener-Obtained :
        (path : Bytes) (w : World)
        → Owns os live Lost w
        → Outcome AnyHalt Obtained (create_unix_listener os path w)
    unfolding create_unix_listener
    create_unix_listener-Obtained path w h =
        let fd = os.opened w.trace af_unix in
        let w₁ = call (open_socket af_unix) w in
        if-cases (Outcome AnyHalt Obtained) (is_negative fd)
          (λ refused. Outcome-return AnyHalt Obtained tt)
          λ opened.
            bind_and_listen-Obtained (unix_listener_socket path) unix fd (unix_path (sun_path path))
              3 _ opened
              ((Pending-Quiet os live Lost fd).calls (unlink (c_string path)) w₁ refl (
                enter-Pending os live Lost fd (open_socket af_unix) w opened refl (tt, h.tidy)
                  (fresh.opened w.trace af_unix) h))

    set_nonblocking-keeps :
        (Q : World → Type 0) (q : Quiet Q) (fd : ℤ) (w : World)
        → Q w
        → Q (set_nonblocking os fd w).1
    unfolding set_nonblocking
    set_nonblocking-keeps Q q fd w h =
        let k = q.calls (get_flags fd) w refl h in
        elim (Option-cases (os.flags_read w.trace fd)) [
          | inl e ↦ rw (e, set_nonblocking) k
          | inr (flags, e) ↦
              rw (e, set_nonblocking)
                (q.calls (set_flags fd (record flags { nonblock = true })) _ refl k)
        ]

    pub create_unix_socket-Settled :
        (path : Bytes) (w : World)
        → ((t : Trace) (fd : ℤ) (a : Address)
            → is_negative (os.connected t fd a) ≡ true
            → Lost.lost (connect fd a ∷ t) fd)
        → Owns os live Lost w
        → Outcome AnyHalt Settled (create_unix_socket os path w)
    unfolding create_unix_socket
    create_unix_socket-Settled path w lost h =
        let fd = os.opened w.trace af_unix in
        let w₁ = call (open_socket af_unix) w in
        let address = unix_path (sun_path path) in
        let w₂ = call (connect fd address) w₁ in
        let P = Outcome AnyHalt Settled in
        let q = Pending-Quiet os live Lost fd in
        if-cases P (is_negative fd)
          (λ refused.
            Outcome-return AnyHalt Settled (
              unchanged-Owns os live Lost (open_socket af_unix) w (rw refused refl) (tt, h.tidy) h))
          λ opened.
            let k = q.calls (connect fd address) w₁ refl (
              enter-Pending os live Lost fd (open_socket af_unix) w opened refl (tt, h.tidy)
                (fresh.opened w.trace af_unix) h) in
            if-cases P (is_negative (os.connected w₁.trace fd address))
              (λ failed.
                Outcome-return AnyHalt Settled
                  (Pending-lost os live Lost fd w₂ (lost w₁.trace fd address failed) k))
              λ done.
                make_object-Settled plain fd unix false _ opened
                  (set_nonblocking-keeps (Pending os live Lost fd) q fd w₂ k)
