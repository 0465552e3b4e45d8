-- ===== src/Listener.antt =====
-- mylsnr.cpp: what the listener does with a client and with a dispatcher that connects, and the
-- `acceptConnection` of the listening sockets (TcpListenerSocketFactory.cpp,
-- TcpSslListenerSocketFactory.cpp, UnixListenerSocketFactory.cpp).
pub mod Configuration
pub mod Clients
pub mod Descriptors
pub mod Quiet
pub mod Ownership
pub mod Stable
pub mod Steps
pub mod Farewell
pub mod Main
use socket_dispatcher.Prelude.{
  ◌+◌, Bool, true, false, not, ◌&&◌, Option, none, some, List, [], ◌∷◌, ◌++◌, ltb, if◌then◌else◌,
  length, ℤ, is_negative, is_positive, Bytes, codes, c_string,
}
use socket_dispatcher.Socket.{
  Socket, SocketType, tcp, ssl, unix, unknown, SocketClass, plain, ssl_socket, tcp_listener_socket,
  tcp_ssl_listener_socket, unix_listener_socket, new_socket, is_dropped,
}
use socket_dispatcher.World.{
  Ref, Os, World, accept, ssl_accept, bio_new_socket, write, call, alloc, Result, ok, halt,
  assertion_failed, ◌>>=◌, ◌>>◌, assert, descriptor_of,
}
use socket_dispatcher.SocketsList.{SocketsList, put_socket, del_socket}
use socket_dispatcher.SocketUtils.{destroy}
use socket_dispatcher.Config.{ApplicationConfig}
use socket_dispatcher.Passing.{send_socket}

-- `make_shared<Socket>(fd, t, false)`
unfoldable pub make_socket : ℤ → SocketType → World → Result (Option Ref × World)
make_socket fd t w = elim (new_socket plain fd t false) [
  | none ↦ halt assertion_failed
  | some s ↦ ok (some (alloc s w).0, (alloc s w).1)
]

-- The result of `SSL_accept` on a new connection. Its failure leaves the descriptor open.
unfoldable pub accept_ssl : Os → ℤ → World → Result (Option Ref × World)
accept_ssl os new_fd w =
    let w₁ = call (bio_new_socket new_fd) w in
    let w₂ = call (ssl_accept new_fd) w₁ in
    if is_positive (os.ssl_accepted w₁.trace new_fd)
    then make_socket new_fd ssl w₂
    else ok (none, w₂)

-- What each class makes of a new connection.
unfoldable pub accept_by : SocketClass → Os → ℤ → World → Result (Option Ref × World)
accept_by tcp_listener_socket os new_fd w = make_socket new_fd tcp w
accept_by tcp_ssl_listener_socket os new_fd w = accept_ssl os new_fd w
accept_by (unix_listener_socket path) os new_fd w = make_socket new_fd unix w
accept_by plain os new_fd w = halt assertion_failed
accept_by ssl_socket os new_fd w = halt assertion_failed

abbrev pub accepts : SocketClass → Bool
accepts plain = false
accepts ssl_socket = false
accepts tcp_listener_socket = true
accepts tcp_ssl_listener_socket = true
accepts (unix_listener_socket path) = true

-- `acceptConnection`: the base class fails its assertion before any call.
unfoldable pub accept_connection : Os → Ref → World → Result (Option Ref × World)
accept_connection os r w =
    let fd = descriptor_of w r in
    let new_fd = os.accepted w.trace fd in
    let w' = call (accept fd) w in
    if not (accepts (w.cell r).class)
    then halt assertion_failed
    else if is_negative new_fd
    then ok (none, w')
    else accept_by (w.cell r).class os new_fd w'

-- `s->socketType() == SocketType::UNIX`
abbrev pub is_unix : SocketType → Bool
is_unix unix = true
is_unix tcp = false
is_unix ssl = false
is_unix unknown = false

-- The test for the connection of a dispatcher.
abbrev pub is_dispatcher : Socket → Bool
is_dispatcher s = is_unix s.socket_type && not s.listen_socket

-- The loop of `processClientConnection`; a failed send is only logged.
unfoldable pub pass_client : Os → Ref → List Ref → World → World
pass_client os client [] w = w
pass_client os client (s ∷ ss) w =
    pass_client os client ss (if is_dispatcher (w.cell s) then (send_socket os s client w).1 else w)

-- The local pointer to the accepted socket goes away at the end.
unfoldable pub process_client_connection : Os → Ref → List Ref → World → Result (Bool × World)
process_client_connection os r l w = accept_connection os r w >>= λ accepted. elim accepted.0 [
  | none ↦ ok (false, accepted.1)
  | some client ↦ ok (true, destroy client (pass_client os client l accepted.1))
]

abbrev pub config_label : Bytes
config_label = codes "CONFIG"

-- One line of the format, with what comes after it.
abbrev pub setting : Bytes → Bytes → Bytes → Bytes
setting name value rest = name ++ (value ++ b'\n' ∷ rest)

-- What `snprintf` prints; `pid` is the decimal text of the process id.
abbrev pub config_message : Bytes → ApplicationConfig → Bytes
config_message pid c = setting (codes "PPID=") pid (
    setting (codes "CAFILE=") (c_string c.ca_file) (
      setting (codes "CERTFILE=") (c_string c.cert_file)
        (setting (codes "KEYFILE=") (c_string c.key_file) [])))

-- The rest of `processDispatcherConnection`, on the accepted socket and the result of `putSocket`.
-- A socket that found no place is destroyed when the local pointer goes away.
unfoldable pub send_config :
    Os
    → Bytes
    → ApplicationConfig
    → Ref
    → Bool × SocketsList
    → World
    → Result (Bool × SocketsList × World)
send_config os pid c s (entered, l) w =
    let fd = descriptor_of w s in
    let message = config_message pid c in
    let w₁ = call (write fd config_label) w in
    let w₂ = call (write fd message) w₁ in
    if is_negative (os.written w.trace fd config_label)
    then ok (false, l, if entered then w₁ else destroy s w₁)
    else assert (ltb (length message) 4096)
      >> ok (
        not (is_negative (os.written w₁.trace fd message)),
        l,
        if entered then w₂ else destroy s w₂,
      )

unfoldable pub process_dispatcher_connection :
    Os → Bytes → ApplicationConfig → Ref → SocketsList → World → Result (Bool × SocketsList × World)
process_dispatcher_connection os pid c r l w = accept_connection os r w >>= λ accepted.
    elim accepted.0 [
      | none ↦ ok (false, l, accepted.1)
      | some s ↦ send_config os pid c s (put_socket s l) accepted.1
    ]

-- The branches of `processSockets` on a socket that is not dropped, by its type and whether it
-- listens. The results of the two functions are not looked at.
unfoldable pub process_listener :
    Os
    → Bytes
    → ApplicationConfig
    → SocketType
    → Bool
    → Ref
    → SocketsList
    → World
    → Result (SocketsList × World)
process_listener os pid c tcp true r l w =
    process_client_connection os r l.sockets w >>= λ done. ok (l, done.1)
process_listener os pid c unix true r l w =
    process_dispatcher_connection os pid c r l w >>= λ done. ok (done.1, done.2)
process_listener os pid c t listening r l w = ok (l, w)

unfoldable pub process_sockets :
    Os → Bytes → ApplicationConfig → List Ref → SocketsList → World → Result (SocketsList × World)
process_sockets os pid c [] l w = ok (l, w)
process_sockets os pid c (r ∷ rs) l w = elim (is_dropped (w.cell r)) [
  | true ↦ process_sockets os pid c rs (del_socket (descriptor_of w) r l).1 w
  | false ↦
      process_listener os pid c (w.cell r).socket_type (w.cell r).listen_socket r l w >>= λ done.
      process_sockets os pid c rs done.0 done.1
]

-- `sayGoodbyeToAllDispatchers`
unfoldable pub say_goodbye : List Ref → World → World
say_goodbye [] w = w
say_goodbye (r ∷ rs) w =
    say_goodbye rs
      (if is_dispatcher (w.cell r) then call (write (descriptor_of w r) (codes "EXIT")) w else w)
