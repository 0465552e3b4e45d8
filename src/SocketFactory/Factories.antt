-- ===== src/SocketFactory/Factories.antt =====
-- The factories as objects: what each keeps from its making to its `createSocket`. The TLS context
-- that two of them keep is the global one, of which the model knows only that it is there.
use socket_dispatcher.Prelude.{ℕ, Bool, Option, Bytes}
use socket_dispatcher.World.{Ref, Os, World, Result, ok, ◌>>◌}
use socket_dispatcher.Passing.{receive_socket}
use socket_dispatcher.SocketFactory.{
  uint16, require_context, create_tcp_listener, create_tcp_ssl_listener, create_unix_listener,
  create_unix_socket, create_ssl_connection,
}

pub record UnixSocketFactory : Type 0 where
  pub path : Bytes

pub record UnixListenerSocketFactory : Type 0 where
  pub path : Bytes

pub record TcpListenerSocketFactory : Type 0 where
  pub port : ℕ
  pub queue_length : ℕ

pub record TcpSslListenerSocketFactory : Type 0 where
  pub port : ℕ
  pub queue_length : ℕ

pub record TcpSslConnectSocketFactory : Type 0 where
  pub host : Bytes
  pub port : ℕ

pub record ReceivedTcpSocketFactory : Type 0 where
  pub unix_socket : Ref

-- A `SocketFactory::Ptr`, by the class of its object.
pub data SocketFactory : Type 0 where
  unix_socket_factory : UnixSocketFactory → SocketFactory
  unix_listener_socket_factory : UnixListenerSocketFactory → SocketFactory
  tcp_listener_socket_factory : TcpListenerSocketFactory → SocketFactory
  tcp_ssl_listener_socket_factory : TcpSslListenerSocketFactory → SocketFactory
  tcp_ssl_connect_socket_factory : TcpSslConnectSocketFactory → SocketFactory
  received_tcp_socket_factory : ReceivedTcpSocketFactory → SocketFactory

abbrev pub create_unix_socket_factory : Bytes → SocketFactory
create_unix_socket_factory path = unix_socket_factory (record { path = path })

abbrev pub create_unix_listener_socket_factory : Bytes → SocketFactory
create_unix_listener_socket_factory path = unix_listener_socket_factory (record { path = path })

abbrev pub create_tcp_listener_socket_factory : ℕ → ℕ → SocketFactory
create_tcp_listener_socket_factory port queue =
    tcp_listener_socket_factory (record { port = uint16 port; queue_length = uint16 queue })

abbrev pub create_received_tcp_socket_factory : Ref → SocketFactory
create_received_tcp_socket_factory r = received_tcp_socket_factory (record { unix_socket = r })

-- `context` tells whether the global context is there; without one the two throw.
abbrev pub create_tcp_ssl_listener_socket_factory : Bool → ℕ → ℕ → Result SocketFactory
create_tcp_ssl_listener_socket_factory context port queue =
    require_context context
    >> ok (
        tcp_ssl_listener_socket_factory
          (record { port = uint16 port; queue_length = uint16 queue }))

abbrev pub create_tcp_ssl_connect_socket_factory : Bool → Bytes → ℕ → Result SocketFactory
create_tcp_ssl_connect_socket_factory context name port =
    require_context context
    >> ok (tcp_ssl_connect_socket_factory (record { host = name; port = uint16 port }))

-- The virtual `createSocket`. `rounds` bounds the loop of the one that waits for a message.
abbrev pub create_socket : Os → ℕ → SocketFactory → World → Result (Option Ref × World)
create_socket os rounds (unix_socket_factory f) w = create_unix_socket os f.path w
create_socket os rounds (unix_listener_socket_factory f) w = create_unix_listener os f.path w
create_socket os rounds (tcp_listener_socket_factory f) w =
    create_tcp_listener os f.port f.queue_length w
create_socket os rounds (tcp_ssl_listener_socket_factory f) w =
    create_tcp_ssl_listener os f.port f.queue_length w
create_socket os rounds (tcp_ssl_connect_socket_factory f) w =
    create_ssl_connection os f.host f.port w
create_socket os rounds (received_tcp_socket_factory f) w = receive_socket os rounds f.unix_socket w
