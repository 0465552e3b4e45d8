-- ===== src/Listener/Configuration.antt =====
-- What the listener sends to a dispatcher that connects, and what the dispatcher reads in it.
use socket_dispatcher.Prelude.{
  ℕ, ◌+◌, ◌<◌, ◌≡◌, refl, ap, ◌∙◌, ◌≢◌, Bool, true, false, some, List, [], ◌∷◌, ◌++◌, append-nil,
  arith, ltb, if◌then◌else◌, ==_refl, length, All-append, ℤ, pos, negsuc, is_negative, Bytes, codes,
  starts_with, c_string, IsText,
}
use socket_dispatcher.World.{
  Ref, Os, World, Trace, ok, descriptor_of, accept, close, call, write, alloc,
}
use socket_dispatcher.Socket.{
  Socket, SocketType, plain, fresh_socket, unix, new_socket, unix_listener_socket,
}
use socket_dispatcher.SocketsList.{SocketsList, put_socket}
use socket_dispatcher.SocketUtils.{destroy, class_destructor}
use socket_dispatcher.Config.{ApplicationConfig, line_buffer_size, read_lines}
use socket_dispatcher.Config.Lines.{IsLine, unlines, apply_line, apply_lines, read_lines_lem}
use socket_dispatcher.Listener.{
  config_label, config_message, accept_connection, accept_by, make_socket, send_config,
  process_dispatcher_connection,
}

-- A setting that can be sent behind a name of `n` bytes: a text with no newline, short enough for
-- a line.
abbrev pub IsValue : ℕ → Bytes → Type 0
IsValue n v = IsText v × IsLine v × (n + length v < line_buffer_size)

c_string_whole : (s : Bytes) → IsText s → c_string s ≡ s
unfolding c_string
c_string_whole [] h = refl
c_string_whole (b ∷ s) h = ground (arith, c_string_whole s h.1)

-- The lines that the two messages make together.
abbrev config_lines : Bytes → ApplicationConfig → List Bytes
config_lines pid c =
    (codes "CONFIGPPID=" ++ pid)
    ∷ (codes "CAFILE=" ++ c.ca_file)
    ∷ (codes "CERTFILE=" ++ c.cert_file)
    ∷ (codes "KEYFILE=" ++ c.key_file)
    ∷ []

apply-config_lines :
    (pid : Bytes) (c d : ApplicationConfig)
    → IsText c.ca_file
    → IsText c.cert_file
    → IsText c.key_file
    → apply_lines (config_lines pid c) d
      ≡ record d { ca_file = c.ca_file; cert_file = c.cert_file; key_file = c.key_file }
unfolding apply_line starts_with
apply-config_lines pid c d a b k =
    rw (c_string_whole c.ca_file a, c_string_whole c.cert_file b, c_string_whole c.key_file k)

named-IsLine : (n v : Bytes) → IsLine n → IsLine v → IsLine (n ++ v)
named-IsLine n v hn hv = All-append (λ b. b ≢ b'\n') n v hn hv

-- The label and the message that the listener writes, when they arrive together, give the
-- dispatcher the listener's three files, whatever its line buffer held and whatever its settings
-- were. The settings and the text of the process id hold no newline and no NUL and are short enough
-- for a line.
pub read_lines-config_message :
    (pid buffer : Bytes) (c d : ApplicationConfig)
    → IsValue 11 pid
    → IsValue 7 c.ca_file
    → IsValue 9 c.cert_file
    → IsValue 8 c.key_file
    → read_lines [] buffer (config_label ++ config_message pid c) d
      ≡ ok (record d { ca_file = c.ca_file; cert_file = c.cert_file; key_file = c.key_file })
read_lines-config_message pid buffer c d p a b k =
    let sent : config_label ++ config_message pid c ≡ unlines (config_lines pid c) ++ [] = rw (
      c_string_whole c.ca_file a.0,
      c_string_whole c.cert_file b.0,
      c_string_whole c.key_file k.0,
      append-nil (unlines (config_lines pid c)),
    ) in
    rw sent (
      read_lines_lem (config_lines pid c) [] buffer d
        (
          named-IsLine (codes "CONFIGPPID=") pid (omega arith) p.1,
          (
            named-IsLine (codes "CAFILE=") c.ca_file (omega arith) a.1,
            (
              named-IsLine (codes "CERTFILE=") c.cert_file (omega arith) b.1,
              (named-IsLine (codes "KEYFILE=") c.key_file (omega arith) k.1, tt),
            ),
          ),
        )
        (omega arith) tt
      ∙ ap ok (apply-config_lines pid c d a.0 b.0 k.0))

-- The object for a connection that a listening socket has accepted.
abbrev pub connection : ℤ → SocketType → Socket
connection fd t = fresh_socket plain fd t false

pub make_socket-connection :
    (fd : ℤ) (t : SocketType) (w : World)
    → is_negative fd ≡ false
    → make_socket fd t w ≡ ok (some w.next, (alloc (connection fd t) w).1)
unfolding make_socket new_socket
make_socket-connection (pos n) t w h = refl
make_socket-connection (negsuc n) t w h = cc

accept_connection-unix :
    (os : Os) (r : Ref) (w : World) {path : Bytes}
    → let fd = os.accepted w.trace (descriptor_of w r) in
      (w.cell r).class ≡ unix_listener_socket path
      → is_negative fd ≡ false
      → accept_connection os r w
        ≡ ok (some w.next, (alloc (connection fd unix) (call (accept (descriptor_of w r)) w)).1)
unfolding accept_connection accept_by
accept_connection-unix os r w e h =
    rw (e, h)
      (make_socket-connection (os.accepted w.trace (descriptor_of w r)) unix
        (call (accept (descriptor_of w r)) w) h)

module _ (os : Os) (pid : Bytes) (c : ApplicationConfig)
    (writes : (t : Trace) (fd : ℤ) (m : Bytes) → is_negative (os.written t fd m) ≡ false)
    (short : length (config_message pid c) < 4096) where
  -- The world after both messages.
  abbrev told : ℤ → World → World
  told fd w = call (write fd (config_message pid c)) (call (write fd config_label) w)

  send_config-told :
      (s : Ref) (entered : Bool) (l : SocketsList) (w : World)
      → let w' = told (descriptor_of w s) w in
        send_config os pid c s (entered, l) w ≡ ok (true, l, if entered then w' else destroy s w')
  unfolding send_config
  send_config-told s entered l w =
      let fits : ltb (length (config_message pid c)) 4096 ≡ true = ground arith in
      rw (
        writes w.trace (descriptor_of w s) config_label,
        fits,
        writes (call (write (descriptor_of w s) config_label) w).trace (descriptor_of w s)
            (config_message pid c),
      )

  told-trace :
      (s : Ref) (entered : Bool) (fd : ℤ) (w : World)
      → w.cell s ≡ connection fd unix
      → let w' = told (descriptor_of w s) w in
        let t = write fd (config_message pid c) ∷ write fd config_label ∷ w.trace in
        (if entered then w' else destroy s w').trace ≡ (if entered then t else close fd ∷ t)
  unfolding destroy class_destructor
  told-trace s true fd w h = rw (h, descriptor_of)
  told-trace s false fd w h = rw (h, descriptor_of)

  -- A dispatcher that connects, on a system where the connection is accepted and nothing that is
  -- written fails, and with a message that fits its buffer, is sent the label and then the
  -- configuration over the new connection, whose object is entered in the list if there is a place;
  -- if there is none, the connection is closed after that.
  pub process_dispatcher_connection-trace :
      (r : Ref) (l : SocketsList) (w : World) {path : Bytes}
      → let fd = os.accepted w.trace (descriptor_of w r) in
        let t =
          write fd (config_message pid c)
          ∷ write fd config_label
          ∷ accept (descriptor_of w r)
          ∷ w.trace in
        (w.cell r).class ≡ unix_listener_socket path
        → is_negative fd ≡ false
        → (w' : World) × (process_dispatcher_connection os pid c r l w
            ≡ ok (true, (put_socket w.next l).1, w'))
          × (w'.trace ≡ (if (put_socket w.next l).0 then t else close fd ∷ t))
  unfolding process_dispatcher_connection
  process_dispatcher_connection-trace r l w e h =
      let fd = os.accepted w.trace (descriptor_of w r) in
      let w₁ = (alloc (connection fd unix) (call (accept (descriptor_of w r)) w)).1 in
      let w₂ = told (descriptor_of w₁ w.next) w₁ in
      (
        (if (put_socket w.next l).0 then w₂ else destroy w.next w₂),
        rw (accept_connection-unix os r w e h)
            (send_config-told w.next (put_socket w.next l).0 (put_socket w.next l).1 w₁),
        told-trace w.next (put_socket w.next l).0 fd w₁ (rw (==_refl w.next)),
      )
