-- ===== src/Dispatcher/Entry.antt =====
-- What the dispatcher makes of a client whose descriptor is passed to it.
use mathlib.Core.Path.{subst}
use socket_dispatcher.Prelude.{
  ℕ, suc, ◌<◌, ◌≡◌, refl, ap, ◌∙◌, Bool, true, false, some, ◌∷◌, ◌++◌, arith, ◌==◌, if◌then◌else◌,
  ==_refl, ℤ, pos, is_negative, is_positive, Bytes,
}
use socket_dispatcher.Socket.{
  Socket, plain, ssl, ssl_socket, hello, fresh_socket, new_socket, is_dropped, protect,
  poll_for_write, set_client_status,
}
use socket_dispatcher.World.{
  Ref, Trace, Os, World, recv, bio_new_socket, bio_write, ssl_free, close, call, alloc, modify, ok,
  descriptor_of,
}
use socket_dispatcher.SocketsList.{put_socket}
use socket_dispatcher.SocketUtils.{
  write_message, wrap_ssl, make_ssl_socket, destroy, class_destructor,
}
use socket_dispatcher.SocketUtils.Tls.{
  IsTls, fresh_socket-IsTls, write_message-IsTls, destroy-IsTls,
}
use socket_dispatcher.Passing.{message_for, receive_socket, ensure_control}
use socket_dispatcher.Passing.Transfer.{adopted, tcp_socket}
use socket_dispatcher.Passing.Adoption.{positive-free}
use socket_dispatcher.Passing.Waiting.{
  answer_at, asked, SkipsFor, asked_times, ensure_control-kept, receive_socket_entered,
}
use socket_dispatcher.Passing.Arrival.{asked_times-next, receive_socket_returns}
use socket_dispatcher.Dispatcher.{
  Dispatcher, busy_message, enter_client, wrap_client, receive_client, dispatcher_process,
}

-- The TLS socket of a client to whom the greeting is due.
abbrev pub client_socket : ℤ → Socket
client_socket fd = poll_for_write (set_client_status hello (fresh_socket ssl_socket fd ssl false))

-- The calls of a client's entry, on top of `t`: none, or the refusal.
abbrev pub entry_calls : Bool → ℤ → Trace → Trace
entry_calls true fd t = t
entry_calls false fd t = close fd ∷ ssl_free fd ∷ bio_write fd busy_message ∷ t

-- The world that `enter_client` makes, where `entered` is what `putSocket` gave.
abbrev entry : Os → Bool → Ref → World → World
entry os entered r w =
    let w₁ = if entered then w else (write_message os r busy_message w).1 in
    let w' = modify r (set_client_status hello) (modify r poll_for_write w₁) in
    if entered then w' else destroy r w'

entry-calls :
    (os : Os) (entered : Bool) (r : Ref) (fd : ℤ) (w : World)
    → w.cell r ≡ fresh_socket ssl_socket fd ssl false
    → let w' = entry os entered r w in
      (w'.cell r ≡ client_socket fd) × (w'.trace ≡ entry_calls entered fd w.trace)
entry-calls os true r fd w h = (rw (==_refl r) (rw h), refl)
entry-calls os false r fd w h =
    let w₁ = call (bio_write fd busy_message) w in
    let w₂ = modify r (set_client_status hello) (modify r poll_for_write w₁) in
    let new : w₂.cell r ≡ client_socket fd = rw (==_refl r) (rw h) in
    let tls : IsTls fd (w₂.cell r) = rw new (refl, refl, refl) in
    let e =
      ap (λ (x : World). destroy r (modify r (set_client_status hello) (modify r poll_for_write x)))
        (write_message-IsTls r fd w (fresh_socket-IsTls fd (w.cell r) h) os busy_message)
      ∙ destroy-IsTls r fd w₂ tls in
    (ap (λ (x : World). x.cell r) e ∙ new, ap (λ (x : World). x.trace) e)

-- What `wrap_ssl` makes of a world.
abbrev wrapped : Ref → ℤ → World → World
wrapped r fd w =
    modify r protect (call (bio_new_socket fd) (alloc (fresh_socket ssl_socket fd ssl false) w).1)

wrap_ssl-wrapped :
    (r : Ref) (w : World)
    → is_positive (descriptor_of w r) ≡ true
    → wrap_ssl true r w ≡ ok (w.next, wrapped r (descriptor_of w r) w)
unfolding wrap_ssl make_ssl_socket new_socket
wrap_ssl-wrapped r w h =
    rw (wrap_ssl, make_ssl_socket, wrap_ssl, positive-free (descriptor_of w r) h)

ensure_control-next : (os : Os) (w : World) → (ensure_control os w).1.next ≡ w.next
unfolding ensure_control
ensure_control-next os w = ground arith

destroy-protected :
    (r : Ref) (w : World)
    → (w.cell r).class ≡ plain
    → (w.cell r).protect_descriptor ≡ true
    → destroy r w ≡ w
unfolding destroy class_destructor
destroy-protected r w c p = rw (c, p)

module _ (os : Os) (stack : Bytes) (fuel : ℕ) where
  -- Client `r` of descriptor `fd` is in the list of `d'`, if that of `d` had a place, with the greeting
  -- due; if there was none, it is told so and closed. `t` is what was called before.
  abbrev pub Entered : ℤ → Ref → Trace → Dispatcher → Dispatcher → Type 0
  Entered fd r t d d' =
      (d'.sockets ≡ (put_socket r d.sockets).1)
      × (d'.world.cell r ≡ client_socket fd)
      × (d'.world.trace ≡ entry_calls (put_socket r d.sockets).0 fd t)

  enter_client-Entered :
      (r : Ref) (fd : ℤ) (d : Dispatcher)
      → d.world.cell r ≡ fresh_socket ssl_socket fd ssl false
      → Entered fd r d.world.trace d (enter_client os stack fuel r d)
  unfolding enter_client
  enter_client-Entered r fd d h =
      let e = entry-calls os (put_socket r d.sockets).0 r fd d.world h in (refl, e.0, e.1)

  wrap_client-Entered :
      (r : Ref) (fd : ℤ) (d : Dispatcher)
      → d.world.cell r ≡ tcp_socket fd
      → is_positive fd ≡ true
      → r < d.world.next
      → d.globals.context ≡ true
      → (d' : Dispatcher) × (wrap_client os stack fuel (some r) d ≡ ok (true, d'))
        × Entered fd d.world.next (bio_new_socket fd ∷ d.world.trace) d d'
  unfolding wrap_client
  wrap_client-Entered r fd d e h older context =
      let w = wrapped r fd d.world in
      let same : descriptor_of d.world r ≡ fd = ap (λ (x : Socket). x.descriptor) e in
      let apart : (r == d.world.next) ≡ false = ground arith in
      let apart' : (d.world.next == r) ≡ false = ground arith in
      let at_next : w.cell d.world.next ≡ fresh_socket ssl_socket fd ssl false =
        rw (apart, ==_refl d.world.next) in
      let at_r : w.cell r ≡ protect (tcp_socket fd) = rw (==_refl r) (rw apart' (rw e)) in
      let gone =
        destroy-protected r w (ap (λ (x : Socket). x.class) at_r)
          (ap (λ (x : Socket). x.protect_descriptor) at_r) in
      let made =
        ap (λ (c : Bool). wrap_ssl c r d.world) context
        ∙ wrap_ssl-wrapped r d.world (ap is_positive same ∙ h)
        ∙ ap (λ (x : ℤ). ok (d.world.next, wrapped r x d.world)) same in
      (
        enter_client os stack fuel d.world.next (record d { world = w }),
        rw made (
            ap
              (λ (x : World).
                ok (true, enter_client os stack fuel d.world.next (record d { world = x })))
              gone),
        enter_client-Entered d.world.next fd (record d { world = w }) at_next,
      )

  Entered-at :
      (fd : ℤ) (t : Trace) (d d' : Dispatcher) {n n' : Ref}
      → n ≡ n'
      → Entered fd (suc n) t d d'
      → Entered fd (suc n') t d d'
  Entered-at fd t d d' e h = subst (λ (x : ℕ). Entered fd (suc x) t d d') e h

  receive_client-Entered :
      (fd : ℤ) (w : World) (d : Dispatcher)
      → receive_socket os fuel d.unix_socket d.world ≡ ok (adopted fd w)
      → is_positive fd ≡ true
      → d.globals.context ≡ true
      → (d' : Dispatcher) × (receive_client os stack fuel d ≡ ok (true, d'))
        × Entered fd (suc w.next) (bio_new_socket fd ∷ w.trace) d d'
  unfolding receive_client
  receive_client-Entered fd w d e h context =
      let w' = (alloc (tcp_socket fd) w).1 in
      let found : adopted fd w ≡ (some w.next, w') = rw h in
      let (d', done, entered) =
        wrap_client-Entered w.next fd (record d { world = w' }) (rw (==_refl w.next)) h
          (omega arith) context in
      (d', rw (e, found) done, entered)

  -- A turn in which the UNIX socket is not dropped, two bytes wait on it, the TLS context is set, the
  -- control data is allocated or there is memory for it, and a message that `sendSocket` makes of a
  -- descriptor arrives with a positive number, after any number of answers of `recvmsg` that decide
  -- nothing and with more rounds granted than there are of these: it goes on; a new TLS socket of the
  -- descriptor received, with the greeting due and writing asked for, is entered in the list if
  -- there is a place. If there is none, the client is told so and its descriptor is closed. Nothing
  -- else is called but what receives and wraps the descriptor.
  pub dispatcher_process-Entered :
      (d : Dispatcher) (k : ℕ) (sent : ℤ) (junk : Bytes)
      → let u = d.unix_socket in
        let w₀ = call (recv (descriptor_of d.world u) 200 true) d.world in
        let w = (ensure_control os w₀).1 in
        let w₁ = asked_times os u k w in
        let m = answer_at os u w₁ in
        is_dropped (d.world.cell u) ≡ false
        → (os.received d.world.trace (descriptor_of d.world u) 200 true).ret ≡ pos 2
        → k < fuel
        → d.globals.context ≡ true
        → (ensure_control os w₀).0 ≡ true
        → SkipsFor os u k w
        → m.ret ≡ pos 2
        → m.buffer ≡ (message_for sent).0 ++ junk
        → is_negative sent ≡ false
        → is_positive m.control ≡ true
        → (d' : Dispatcher) × (dispatcher_process os stack fuel d ≡ ok (true, d'))
          × Entered m.control
              (suc d.world.next)
              (bio_new_socket m.control ∷ (asked os u w₁).trace)
              d
              d'
  unfolding dispatcher_process
  dispatcher_process-Entered d k sent junk alive two more context c skips r b real some_fd =
      let u = d.unix_socket in
      let w₀ = call (recv (descriptor_of d.world u) 200 true) d.world in
      let w = (ensure_control os w₀).1 in
      let w₁ = asked_times os u k w in
      let m = answer_at os u w₁ in
      let ready = ensure_control-kept os w₀ c in
      let got : receive_socket os fuel u w₀ ≡ ok (adopted m.control (asked os u w₁)) =
        receive_socket_entered os u fuel k w₀ more c
        ∙ rw real at (receive_socket_returns os u k fuel w sent junk more ready skips r b) in
      let (d', done, entered) =
        receive_client-Entered m.control (asked os u w₁) (record d { world = w₀ }) got some_fd
          context in
      (
        d',
        rw (alive, two) done,
        Entered-at m.control (bio_new_socket m.control ∷ (asked os u w₁).trace) d d'
            (asked_times-next os u k w ∙ ensure_control-next os w₀) entered,
      )
