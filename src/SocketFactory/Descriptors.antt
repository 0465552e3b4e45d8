-- ===== src/SocketFactory/Descriptors.antt =====
-- Which descriptors the factories leave open, and which sockets they make.
use socket_dispatcher.Prelude.{
  ℕ, ◌≡◌, refl, ◌∙◌, inl, inr, Bool, true, false, Option, none, some, List, ==_refl, if-both,
  if-cases, Option-cases, ℤ, pos, negsuc, is_negative, Bytes, c_string,
}
use socket_dispatcher.Socket.{
  Socket, SocketType, tcp, unix, SocketClass, plain, unix_listener_socket, fresh_socket, new_socket,
}
use socket_dispatcher.World.{
  Ref, af_inet, af_unix, Address, any_host, unix_path, Os, World, open_socket, set_reuse_address,
  bind, listen, connect, unlink, call, Result, ok,
}
use socket_dispatcher.World.Ledger.{open_descriptors, enter}
use socket_dispatcher.SocketFactory.{
  make_object, bind_and_listen, create_tcp, create_unix_listener, sun_path, set_nonblocking,
  create_unix_socket,
}

-- The socket that a factory returns, if it returns one, is a new object with the fields of `s`.
abbrev pub Made : Socket → World → Option Ref × World → Type 0
Made s w (none, w') = Unit
Made s w (some r, w') = (r ≡ w.next) × (w'.cell r ≡ s)

-- A result whose descriptors are those of `l`.
abbrev pub Leaves : Os → Socket → World → List ℤ → Result (Option Ref × World) → Type 0
Leaves os s w l m =
    (x : Option Ref × World) × (m ≡ ok x) × (open_descriptors os x.1.trace ≡ l) × Made s w x

make_object-Leaves :
    (os : Os) (c : SocketClass) (fd : ℤ) (t : SocketType) (listening : Bool) (w : World)
    → is_negative fd ≡ false
    → Leaves os
        (fresh_socket c fd t listening)
        w
        (open_descriptors os w.trace)
        (make_object c fd t listening w)
unfolding make_object new_socket
make_object-Leaves os c (pos n) t listening w h =
    ((some w.next, _), refl, refl, (refl, rw (==_refl w.next)))
make_object-Leaves os c (negsuc n) t listening w h = cc

-- What a result leaves does not depend on which of two like worlds it is measured from.
pub Leaves-from :
    (os : Os) (s : Socket) (w w' : World) {l l' : List ℤ} {m : Result (Option Ref × World)}
    → Leaves os s w' l' m
    → l' ≡ l
    → w'.next ≡ w.next
    → Leaves os s w l m
Leaves-from os s w w' ((none, w₁), e, o, h) p q = ((none, w₁), e, o ∙ p, tt)
Leaves-from os s w w' ((some r, w₁), e, o, h) p q = ((some r, w₁), e, o ∙ p, (h.0 ∙ q, h.1))

bind_and_listen-Leaves :
    (os : Os) (c : SocketClass) (t : SocketType) (fd : ℤ) (address : Address) (queue : ℕ)
    (w : World)
    → is_negative fd ≡ false
    → Leaves os
        (fresh_socket c fd t true)
        w
        (open_descriptors os w.trace)
        (bind_and_listen os c t fd address queue w)
unfolding bind_and_listen
bind_and_listen-Leaves os c t fd address queue w h =
    let w₁ = call (bind fd address) w in
    let P = Leaves os (fresh_socket c fd t true) w (open_descriptors os w.trace) in
    if-both P (is_negative (os.bound w.trace fd address)) ((none, w₁), refl, refl, tt)
      (if-both P (is_negative (os.listened w₁.trace fd queue))
        ((none, call (listen fd queue) w₁), refl, refl, tt)
        (make_object-Leaves os c fd t true (call (listen fd queue) w₁) h))

-- A TCP listening factory returns: a new listening socket of its class on the descriptor that
-- `socket` gave, or no socket. In both cases exactly that descriptor, where `socket` gave one, is
-- open in addition: an error of `bind` or `listen` leaves it open with no socket to close it.
pub create_tcp-Leaves :
    (os : Os) (c : SocketClass) (port queue : ℕ) (w : World)
    → let fd = os.opened w.trace af_inet in
      Leaves os
        (fresh_socket c fd tcp true)
        w
        (enter fd (open_descriptors os w.trace))
        (create_tcp os c port queue w)
unfolding create_tcp
create_tcp-Leaves os c port queue w =
    let fd = os.opened w.trace af_inet in
    let w₁ = call (open_socket af_inet) w in
    if-cases (Leaves os (fresh_socket c fd tcp true) w (enter fd (open_descriptors os w.trace)))
      (is_negative fd) (λ failed. ((none, w₁), refl, refl, tt))
      (λ opened.
        bind_and_listen-Leaves os c tcp fd (any_host port) queue (call (set_reuse_address fd) w₁)
          opened)

-- The factory of the listening UNIX socket returns: a new listening socket with its path on the
-- descriptor that `socket` gave, or no socket. In both cases exactly that descriptor, where `socket`
-- gave one, is open in addition: an error of `bind` or `listen` leaves it open.
pub create_unix_listener-Leaves :
    (os : Os) (path : Bytes) (w : World)
    → let fd = os.opened w.trace af_unix in
      Leaves os
        (fresh_socket (unix_listener_socket path) fd unix true)
        w
        (enter fd (open_descriptors os w.trace))
        (create_unix_listener os path w)
unfolding create_unix_listener
create_unix_listener-Leaves os path w =
    let fd = os.opened w.trace af_unix in
    let w₁ = call (open_socket af_unix) w in
    if-cases
      (Leaves os (fresh_socket (unix_listener_socket path) fd unix true) w
        (enter fd (open_descriptors os w.trace)))
      (is_negative fd) (λ failed. ((none, w₁), refl, refl, tt))
      (λ opened.
        bind_and_listen-Leaves os (unix_listener_socket path) unix fd (unix_path (sun_path path)) 3
          (call (unlink (c_string path)) w₁) opened)

set_nonblocking-world :
    (os : Os) (fd : ℤ) (w : World)
    → let w' = (set_nonblocking os fd w).1 in
      (open_descriptors os w'.trace ≡ open_descriptors os w.trace) × (w'.next ≡ w.next)
unfolding set_nonblocking
set_nonblocking-world os fd w = elim (Option-cases (os.flags_read w.trace fd)) [
  | inl e ↦ rw (e, set_nonblocking) (refl, refl)
  | inr (flags, e) ↦ rw (e, set_nonblocking) (refl, refl)
]

-- The factory of a dispatcher's UNIX socket returns: a new UNIX socket on the descriptor that
-- `socket` gave, or no socket. In both cases exactly that descriptor, where `socket` gave one, is
-- open in addition: an error of `connect` leaves it open.
pub create_unix_socket-Leaves :
    (os : Os) (path : Bytes) (w : World)
    → let fd = os.opened w.trace af_unix in
      Leaves os
        (fresh_socket plain fd unix false)
        w
        (enter fd (open_descriptors os w.trace))
        (create_unix_socket os path w)
unfolding create_unix_socket
create_unix_socket-Leaves os path w =
    let fd = os.opened w.trace af_unix in
    let w₁ = call (open_socket af_unix) w in
    let address = unix_path (sun_path path) in
    let w₂ = call (connect fd address) w₁ in
    let w₃ = (set_nonblocking os fd w₂).1 in
    let same = set_nonblocking-world os fd w₂ in
    let s = fresh_socket plain fd unix false in
    let P = Leaves os s w (enter fd (open_descriptors os w.trace)) in
    if-cases P (is_negative fd) (λ failed. ((none, w₁), refl, refl, tt))
      (λ opened.
        if-both P (is_negative (os.connected w₁.trace fd address)) ((none, w₂), refl, refl, tt)
          (Leaves-from os s w w₃ (make_object-Leaves os plain fd unix false w₃ opened) same.0
            same.1))
