-- ===== src/SocketFactory.antt =====
-- SocketFactory.h and the factories (TcpListenerSocketFactory.cpp, TcpSslListenerSocketFactory.cpp,
-- UnixListenerSocketFactory.cpp, UnixSocketFactory.cpp, TcpSslConnectSocketFactory.cpp): the
-- `createSocket` of each, and `setnonblocking` of utils.cpp.
pub mod Descriptors
pub mod Connection
pub mod Factories
pub mod Ownership
use socket_dispatcher.Prelude.{
  ℕ, ◌%◌, Bool, true, false, not, Option, none, some, [], ◌∷◌, ◌==◌, if◌then◌else◌, take, ℤ, pos,
  ◌==ℤ◌, is_negative, is_positive, minus_one, Bytes, c_string,
}
use socket_dispatcher.Socket.{
  SocketType, tcp, ssl, unix, SocketClass, plain, ssl_socket, tcp_listener_socket,
  tcp_ssl_listener_socket, unix_listener_socket, new_socket,
}
use socket_dispatcher.World.{
  Ref, af_inet, af_unix, Address, any_host, unix_path, host, Flags, Os, World, open_socket,
  set_reuse_address, bind, listen, connect, get_host_by_name, get_flags, set_flags, ssl_connect,
  bio_new_socket, unlink, close, call, alloc, Result, ok, halt, assertion_failed, exception_thrown,
  released_twice,
}

-- A `std::uint16_t`.
abbrev pub uint16 : ℕ → ℕ
uint16 n = n % 65536

-- The default of the parameter `queueLength`.
abbrev pub default_queue_length : ℕ
default_queue_length = 32

-- `make_shared` of a socket of class `c`.
unfoldable pub make_object :
    SocketClass → ℤ → SocketType → Bool → World → Result (Option Ref × World)
make_object c fd t listening w = elim (new_socket c fd t listening) [
  | none ↦ halt assertion_failed
  | some s ↦ ok (some (alloc s w).0, (alloc s w).1)
]

-- `bind` and `listen`, which end both listening factories. An error leaves the descriptor open.
unfoldable pub bind_and_listen :
    Os → SocketClass → SocketType → ℤ → Address → ℕ → World → Result (Option Ref × World)
bind_and_listen os c t fd address queue w =
    let w₁ = call (bind fd address) w in
    let w₂ = call (listen fd queue) w₁ in
    if is_negative (os.bound w.trace fd address)
    then ok (none, w₁)
    else if is_negative (os.listened w₁.trace fd queue)
    then ok (none, w₂)
    else make_object c fd t true w₂

-- The two TCP factories differ in the class of their socket only. A failure to set the option is
-- only logged.
unfoldable pub create_tcp : Os → SocketClass → ℕ → ℕ → World → Result (Option Ref × World)
create_tcp os c port queue w =
    let fd = os.opened w.trace af_inet in
    let w₁ = call (open_socket af_inet) w in
    if is_negative fd
    then ok (none, w₁)
    else bind_and_listen os c tcp fd (any_host port) queue (call (set_reuse_address fd) w₁)

unfoldable pub create_tcp_listener : Os → ℕ → ℕ → World → Result (Option Ref × World)
create_tcp_listener os port queue w =
    create_tcp os tcp_listener_socket (uint16 port) (uint16 queue) w

-- `createTcpSslListenerSocketFactory` throws if there is no context; the second call is made later.
unfoldable pub require_context : Bool → Result (Unit {0})
require_context true = ok tt
require_context false = halt exception_thrown

unfoldable pub create_tcp_ssl_listener : Os → ℕ → ℕ → World → Result (Option Ref × World)
create_tcp_ssl_listener os port queue w =
    create_tcp os tcp_ssl_listener_socket (uint16 port) (uint16 queue) w

-- `strncpy` into `sun_path`, of which the last of 108 bytes stays 0.
abbrev pub sun_path : Bytes → Bytes
sun_path path = take 107 (c_string path)

unfoldable pub create_unix_listener : Os → Bytes → World → Result (Option Ref × World)
create_unix_listener os path w =
    let fd = os.opened w.trace af_unix in
    let w₁ = call (open_socket af_unix) w in
    if is_negative fd
    then ok (none, w₁)
    else bind_and_listen os (unix_listener_socket path) unix fd (unix_path (sun_path path)) 3
        (call (unlink (c_string path)) w₁)

-- `setnonblocking`
unfoldable pub set_nonblocking : Os → ℤ → World → Bool × World
set_nonblocking os fd w =
    let w₁ = call (get_flags fd) w in
    elim (os.flags_read w.trace fd) [
      | none ↦ (false, w₁)
      | some flags ↦
          let flags' : Flags = record flags { nonblock = true } in
          (not (is_negative (os.flags_set w₁.trace fd flags')), call (set_flags fd flags') w₁)
    ]

-- `make_shared<UnixSocket>(fd)`
abbrev make_unix_socket : ℤ → World → Result (Option Ref × World)
make_unix_socket fd w = make_object plain fd unix false w

-- `UnixSocketFactory::createSocket`. A failed `connect` leaves the descriptor open, and the result
-- of `setnonblocking` is not looked at.
unfoldable pub create_unix_socket : Os → Bytes → World → Result (Option Ref × World)
create_unix_socket os path w =
    let fd = os.opened w.trace af_unix in
    let w₁ = call (open_socket af_unix) w in
    let address = unix_path (sun_path path) in
    let w₂ = call (connect fd address) w₁ in
    if is_negative fd
    then ok (none, w₁)
    else if is_negative (os.connected w₁.trace fd address)
    then ok (none, w₂)
    else make_unix_socket fd (set_nonblocking os fd w₂).1

-- `make_shared<SslClientSocket>(fd, sbio, ssl)`: the BIO and the SSL object, which there is one of for
-- each descriptor, are those of the connection.
abbrev make_ssl_client_socket : ℤ → World → Result (Option Ref × World)
make_ssl_client_socket fd w = make_object ssl_socket fd ssl false w

-- `SSL_connect` on a connected socket. Where it fails, `BIO_free` releases the BIO that `SSL_set_bio`
-- has handed to the SSL object, and `SSL_free` releases it again.
unfoldable pub connect_ssl : Os → ℤ → World → Result (Option Ref × World)
connect_ssl os fd w =
    let w₁ = call (bio_new_socket fd) w in
    let w₂ = call (ssl_connect fd) w₁ in
    if is_positive (os.ssl_connected w₁.trace fd)
    then make_ssl_client_socket fd w₂
    else halt released_twice

-- What follows the resolution of the host.
unfoldable pub connect_to : Os → Bytes → ℕ → World → Result (Option Ref × World)
connect_to os address port w =
    let fd = os.opened w.trace af_inet in
    let w₁ = call (open_socket af_inet) w in
    let w₂ = call (connect fd (host address port)) w₁ in
    if fd ==ℤ minus_one
    then ok (none, w₁)
    else if os.connected w₁.trace fd (host address port) ==ℤ pos 0
    then connect_ssl os fd w₂
    else ok (none, call (close fd) w₂)

-- The tests of the resolved host. An empty address is one of `h_length` 0.
unfoldable pub connect_resolved : Os → Option Bytes → ℕ → World → Result (Option Ref × World)
connect_resolved os none port w = ok (none, w)
connect_resolved os (some []) port w = ok (none, w)
connect_resolved os (some (b ∷ bs)) port w = connect_to os (b ∷ bs) port w

-- `TcpSslConnectSocketFactory::createSocket`
unfoldable pub create_ssl_connection : Os → Bytes → ℕ → World → Result (Option Ref × World)
create_ssl_connection os name port w =
    connect_resolved os (os.host_resolved w.trace (c_string name)) (uint16 port)
      (call (get_host_by_name (c_string name)) w)
