-- ===== src/Dispatcher/Unready.antt =====
-- What the dispatcher makes of a client that is passed to it while it has no TLS context.
use socket_dispatcher.Prelude.{
  ℕ, ◌<◌, ◌≡◌, ap, ◌∙◌, Bool, true, false, some, ◌++◌, ==_refl, ℤ, pos, is_negative, is_positive,
  Bytes,
}
use socket_dispatcher.Socket.{Socket, new_socket, is_dropped}
use socket_dispatcher.World.{
  Ref, Os, World, recv, call, alloc, ok, halt, null_dereference, descriptor_of,
}
use socket_dispatcher.SocketUtils.{wrap_ssl, make_ssl_socket}
use socket_dispatcher.Passing.{message_for, receive_socket, ensure_control}
use socket_dispatcher.Passing.Transfer.{adopted, tcp_socket}
use socket_dispatcher.Passing.Adoption.{positive-free}
use socket_dispatcher.Passing.Waiting.{
  answer_at, asked, SkipsFor, asked_times, ensure_control-kept, receive_socket_entered,
}
use socket_dispatcher.Passing.Arrival.{receive_socket_returns}
use socket_dispatcher.Dispatcher.{Dispatcher, wrap_client, receive_client, dispatcher_process}

wrap_ssl-unset :
    (r : Ref) (w : World)
    → is_positive (descriptor_of w r) ≡ true
    → wrap_ssl false r w ≡ halt null_dereference
unfolding wrap_ssl make_ssl_socket new_socket
wrap_ssl-unset r w h = rw (wrap_ssl, make_ssl_socket, positive-free (descriptor_of w r) h)

module _ (os : Os) (stack : Bytes) (fuel : ℕ) where
  wrap_client-unset :
      (r : Ref) (d : Dispatcher)
      → d.globals.context ≡ false
      → is_positive (descriptor_of d.world r) ≡ true
      → wrap_client os stack fuel (some r) d ≡ halt null_dereference
  unfolding wrap_client
  wrap_client-unset r d unset h =
      let crashed = ap (λ (c : Bool). wrap_ssl c r d.world) unset ∙ wrap_ssl-unset r d.world h in
      rw crashed

  at_next : (fd : ℤ) (w : World) → (alloc (tcp_socket fd) w).1.cell w.next ≡ tcp_socket fd
  at_next fd w = rw (==_refl w.next)

  receive_client-unset :
      (fd : ℤ) (w : World) (d : Dispatcher)
      → receive_socket os fuel d.unix_socket d.world ≡ ok (adopted fd w)
      → is_positive fd ≡ true
      → d.globals.context ≡ false
      → receive_client os stack fuel d ≡ halt null_dereference
  unfolding receive_client
  receive_client-unset fd w d e h unset =
      let w' = (alloc (tcp_socket fd) w).1 in
      let found : adopted fd w ≡ (some w.next, w') = rw h in
      let there : descriptor_of w' w.next ≡ fd = ap (λ (s : Socket). s.descriptor) (at_next fd w) in
      rw (e, found)
        (wrap_client-unset w.next (record d { world = w' }) unset (ap is_positive there ∙ h))

  -- A turn in which the UNIX socket is not dropped, two bytes wait on it, no TLS context is set, the
  -- control data is allocated or there is memory for it, and a message that `sendSocket` makes of a
  -- descriptor arrives with a positive number, after any number of answers of `recvmsg` that decide
  -- nothing and with more rounds granted than there are of these: the dispatcher follows a null
  -- pointer.
  pub dispatcher_process-unset :
      (d : Dispatcher) (k : ℕ) (sent : ℤ) (junk : Bytes)
      → let u = d.unix_socket in
        let w₀ = call (recv (descriptor_of d.world u) 200 true) d.world in
        let w = (ensure_control os w₀).1 in
        let m = answer_at os u (asked_times os u k w) in
        is_dropped (d.world.cell u) ≡ false
        → (os.received d.world.trace (descriptor_of d.world u) 200 true).ret ≡ pos 2
        → k < fuel
        → d.globals.context ≡ false
        → (ensure_control os w₀).0 ≡ true
        → SkipsFor os u k w
        → m.ret ≡ pos 2
        → m.buffer ≡ (message_for sent).0 ++ junk
        → is_negative sent ≡ false
        → is_positive m.control ≡ true
        → dispatcher_process os stack fuel d ≡ halt null_dereference
  unfolding dispatcher_process
  dispatcher_process-unset d k sent junk alive two more unset c skips r b real some_fd =
      let u = d.unix_socket in
      let w₀ = call (recv (descriptor_of d.world u) 200 true) d.world in
      let w = (ensure_control os w₀).1 in
      let w₁ = asked_times os u k w in
      let m = answer_at os u w₁ in
      let ready = ensure_control-kept os w₀ c in
      let got : receive_socket os fuel u w₀ ≡ ok (adopted m.control (asked os u w₁)) =
        receive_socket_entered os u fuel k w₀ more c
        ∙ rw real at (receive_socket_returns os u k fuel w sent junk more ready skips r b) in
      rw (alive, two)
        (receive_client-unset m.control (asked os u w₁) (record d { world = w₀ }) got some_fd unset)
