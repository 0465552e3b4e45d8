-- ===== src/Listener/Main/Sound.antt =====
-- The listener's start: what making the context and its two sockets keeps.
use socket_dispatcher.Prelude.{
  ℕ, ◌≡◌, refl, sym, ap, ◌∙◌, ◌⊎◌, inl, inr, true, false, Option, none, ◌==◌, if-both, if-cases, ℤ,
  pos, negsuc, is_negative, Bytes,
}
use socket_dispatcher.Socket.{
  Socket, SocketType, tcp, unix, SocketClass, tcp_ssl_listener_socket, unix_listener_socket,
  fresh_socket, new_socket,
}
use socket_dispatcher.World.{
  Trace, Domain, Ref, af_inet, af_unix, Address, any_host, unix_path, Os, World, Halt,
  null_dereference, process_replaced, bind, listen, call, alloc, modify,
}
use socket_dispatcher.World.Outcomes.{Outcome, Outcome-return}
use socket_dispatcher.SocketFactory.{
  make_object, bind_and_listen, create_tcp, create_tcp_ssl_listener, create_unix_listener, sun_path,
  uint16,
}
use socket_dispatcher.Listener.{accepts}
use socket_dispatcher.Listener.Stable.{Stable}

-- Each listening socket is of a class that accepts.
abbrev pub IsSound : World → Type 0
IsSound w = (r : Ref) → (w.cell r).listen_socket ≡ true → accepts (w.cell r).class ≡ true

IsSound-alloc :
    (s : Socket) (w : World)
    → (s.listen_socket ≡ true → accepts s.class ≡ true)
    → IsSound w
    → IsSound (alloc s w).1
IsSound-alloc s w new h r =
    if-both (λ (x : Socket). x.listen_socket ≡ true → accepts x.class ≡ true) (w.next == r) new
      (h r)

IsSound-modify :
    (f : Socket → Socket) (r : Ref) (w : World)
    → (((f (w.cell r)).class ≡ (w.cell r).class)
        × ((f (w.cell r)).listen_socket ≡ (w.cell r).listen_socket))
    → IsSound w
    → IsSound (modify r f w)
IsSound-modify f r w m h q =
    if-both (λ (x : Socket). x.listen_socket ≡ true → accepts x.class ≡ true) (r == q)
      (λ on. ap accepts m.0 ∙ h r (sym m.1 ∙ on)) (h q)

pub IsSound-Stable : Stable IsSound
IsSound-Stable = record {
  calls = λ c w h. h;
  changes = λ f r w m h. let k = m (w.cell r) in IsSound-modify f r w (k.0, k.1) h;
  connections = λ fd t w h. IsSound-alloc _ w (λ on. cc) h;
  buffers = λ b w h. h;
}

-- The system refuses a socket, a `bind` or a `listen` at some point.
abbrev pub MayRefuse : Os → Type 0
MayRefuse os =
    ((t : Trace) × (d : Domain) × (is_negative (os.opened t d) ≡ true))
    ⊎ (((t : Trace) × (fd : ℤ) × (a : Address) × (is_negative (os.bound t fd a) ≡ true))
        ⊎ ((t : Trace) × (fd : ℤ) × (n : ℕ) × (is_negative (os.listened t fd n) ≡ true)))

-- How `main` ends other than by a return: in a child, or at a listening socket that the system has
-- refused.
abbrev pub IsExpected : Os → Halt → Type 0
IsExpected os h = (h ≡ process_replaced) ⊎ ((h ≡ null_dereference) × MayRefuse os)

abbrev pub Created : Os → Option Ref × World → Type 0
Created os x = IsSound x.1 × (x.0 ≡ none → MayRefuse os)

make_object-Created :
    (os : Os) (c : SocketClass) (fd : ℤ) (t : SocketType) (w : World)
    → is_negative fd ≡ false
    → accepts c ≡ true
    → IsSound w
    → Outcome (IsExpected os) (Created os) (make_object c fd t true w)
unfolding make_object new_socket
make_object-Created os c (pos n) t w opened a h =
    Outcome-return (IsExpected os) (Created os)
      (IsSound-alloc (fresh_socket c (pos n) t true) w (λ on. a) h, λ e. cc)
make_object-Created os c (negsuc n) t w opened a h = cc

bind_and_listen-Created :
    (os : Os) (c : SocketClass) (t : SocketType) (fd : ℤ) (address : Address) (queue : ℕ)
    (w : World)
    → is_negative fd ≡ false
    → accepts c ≡ true
    → IsSound w
    → Outcome (IsExpected os) (Created os) (bind_and_listen os c t fd address queue w)
unfolding bind_and_listen
bind_and_listen-Created os c t fd address queue w opened a h =
    let w₁ = call (bind fd address) w in
    let P = Outcome (IsExpected os) (Created os) in
    if-cases P (is_negative (os.bound w.trace fd address))
      (λ refused.
        Outcome-return (IsExpected os) (Created os)
          (h, λ e. inr (inl (w.trace, fd, address, refused))))
      λ bound_well.
        if-cases P (is_negative (os.listened w₁.trace fd queue))
          (λ refused.
            Outcome-return (IsExpected os) (Created os)
              (h, λ e. inr (inr (w₁.trace, fd, queue, refused))))
          λ listening. make_object-Created os c fd t (call (listen fd queue) w₁) opened a h

pub create_tcp_ssl_listener-Created :
    (os : Os) (port queue : ℕ) (w : World)
    → IsSound w
    → Outcome (IsExpected os) (Created os) (create_tcp_ssl_listener os port queue w)
unfolding create_tcp_ssl_listener create_tcp
create_tcp_ssl_listener-Created os port queue w h =
    let fd = os.opened w.trace af_inet in
    if-cases (Outcome (IsExpected os) (Created os)) (is_negative fd)
      (λ refused.
        Outcome-return (IsExpected os) (Created os) (h, λ e. inl (w.trace, af_inet, refused)))
      λ opened.
        bind_and_listen-Created os tcp_ssl_listener_socket tcp fd (any_host (uint16 port))
          (uint16 queue) _ opened refl h

pub create_unix_listener-Created :
    (os : Os) (path : Bytes) (w : World)
    → IsSound w
    → Outcome (IsExpected os) (Created os) (create_unix_listener os path w)
unfolding create_unix_listener
create_unix_listener-Created os path w h =
    let fd = os.opened w.trace af_unix in
    if-cases (Outcome (IsExpected os) (Created os)) (is_negative fd)
      (λ refused.
        Outcome-return (IsExpected os) (Created os) (h, λ e. inl (w.trace, af_unix, refused)))
      λ opened.
        bind_and_listen-Created os (unix_listener_socket path) unix fd (unix_path (sun_path path)) 3
          _ opened refl h
