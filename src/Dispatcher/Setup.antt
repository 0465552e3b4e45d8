-- ===== src/Dispatcher/Setup.antt =====
-- What the dispatcher makes of the configuration that the listener sends.
use socket_dispatcher.Prelude.{
  ℕ, ◌≡◌, Bool, true, false, ◌++◌, ◌==◌, length, take-append, pos, ◌==ℤ◌, Bytes, codes, starts_with,
}
use socket_dispatcher.Socket.{is_dropped}
use socket_dispatcher.World.{Os, recv, call, ok, descriptor_of}
use socket_dispatcher.Ssl.{create_context}
use socket_dispatcher.Config.{ApplicationConfig, password, process_config}
use socket_dispatcher.Listener.{config_label, config_message}
use socket_dispatcher.Listener.Configuration.{IsValue, read_lines-config_message}
use socket_dispatcher.Dispatcher.{Dispatcher, apply_config, receive_config, dispatcher_process}

-- The three files of `c` in a configuration.
abbrev pub with_files : ApplicationConfig → ApplicationConfig → ApplicationConfig
with_files c d = record d { ca_file = c.ca_file; cert_file = c.cert_file; key_file = c.key_file }

-- The TLS context made of the files of `c`, and the dispatcher after that.
abbrev pub configured : Os → ApplicationConfig → Dispatcher → Bool × Dispatcher
configured os c d =
    let created = create_context os c.ca_file c.cert_file c.key_file password d.globals d.world in
    (
      created.0 == 0,
      record d { world = created.2; config = with_files c d.config; globals = created.1 },
    )

-- The label and the configuration together.
abbrev pub message : Bytes → ApplicationConfig → Bytes
message pid c = config_label ++ config_message pid c

module _ (os : Os) (stack : Bytes) (fuel : ℕ) (pid : Bytes) (c : ApplicationConfig)
    (p : IsValue 11 pid) (a : IsValue 7 c.ca_file) (b : IsValue 9 c.cert_file)
    (k : IsValue 8 c.key_file) where
  apply_config-configured :
      (d : Dispatcher) → apply_config os stack fuel (message pid c) d ≡ ok (configured os c d)
  unfolding apply_config process_config
  apply_config-configured d = rw (read_lines-config_message pid stack c d.config p a b k)

  -- A turn in which the UNIX socket is not dropped and the message of the listener waits whole on it,
  -- its label shown by a read that is neither of no bytes nor of two: the dispatcher takes the
  -- listener's three files over, whatever its settings and its stack were, calls `createContext`
  -- with them, which makes a context where none is set, and goes on exactly if it reports success.
  -- The settings and the text of the process id hold no newline and no NUL and fit a line.
  pub dispatcher_process-configured :
      (d : Dispatcher) (junk : Bytes)
      → let fd = descriptor_of d.world d.unix_socket in
        let peek = os.received d.world.trace fd 200 true in
        let w₁ = call (recv fd 200 true) d.world in
        let input = os.received w₁.trace fd 4096 false in
        is_dropped (d.world.cell d.unix_socket) ≡ false
        → (peek.ret ==ℤ pos 0) ≡ false
        → (peek.ret ==ℤ pos 2) ≡ false
        → starts_with (codes "CONFIG") peek.buffer ≡ true
        → input.ret ≡ pos (length (message pid c))
        → input.buffer ≡ message pid c ++ junk
        → dispatcher_process os stack fuel d
          ≡ ok (configured os c (record d { world = call (recv fd 4096 false) w₁ }))
  unfolding dispatcher_process receive_config
  dispatcher_process-configured d junk alive some_bytes not_two label whole bytes =
      let fd = descriptor_of d.world d.unix_socket in
      let w₁ = call (recv fd 200 true) d.world in
      rw (alive, some_bytes, not_two, label)
        (rw (whole, bytes)
          (rw (take-append (message pid c) junk)
            (apply_config-configured (record d { world = call (recv fd 4096 false) w₁ }))))
