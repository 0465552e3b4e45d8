-- ===== src/Tests/Factories.antt =====
-- The factories on a system that refuses to bind and to connect, and on one that does not.
use socket_dispatcher.Prelude.{true, false, [], ◌∷◌, pos, minus_one, codes}
use socket_dispatcher.Socket.{
  tcp, ssl, unix, plain, ssl_socket, tcp_listener_socket, unix_listener_socket, fresh_socket,
}
use socket_dispatcher.World.{Os}
use socket_dispatcher.SocketFactory.{
  create_tcp, create_unix_listener, create_unix_socket, create_ssl_connection,
}
use socket_dispatcher.SocketFactory.Descriptors.{
  Leaves, create_tcp-Leaves, create_unix_listener-Leaves, create_unix_socket-Leaves,
}
use socket_dispatcher.SocketFactory.Connection.{Balances, create_ssl_connection-Balances}
use socket_dispatcher.Tests.{demo_os, demo_world}

abbrev refusing_os : Os
refusing_os = record demo_os { bound = λ t fd a. minus_one; connected = λ t fd a. minus_one }

create_tcp-Leaves_example :
    Leaves refusing_os
      (fresh_socket tcp_listener_socket (pos 5) tcp true)
      demo_world
      (pos 5 ∷ [])
      (create_tcp refusing_os tcp_listener_socket 5555 32 demo_world)
create_tcp-Leaves_example = create_tcp-Leaves refusing_os tcp_listener_socket 5555 32 demo_world

create_unix_listener-Leaves_example :
    Leaves demo_os
      (fresh_socket (unix_listener_socket (codes "dispatch.sock")) (pos 5) unix true)
      demo_world
      (pos 5 ∷ [])
      (create_unix_listener demo_os (codes "dispatch.sock") demo_world)
create_unix_listener-Leaves_example =
    create_unix_listener-Leaves demo_os (codes "dispatch.sock") demo_world

create_unix_socket-Leaves_example :
    Leaves refusing_os
      (fresh_socket plain (pos 5) unix false)
      demo_world
      (pos 5 ∷ [])
      (create_unix_socket refusing_os (codes "dispatch.sock") demo_world)
create_unix_socket-Leaves_example =
    create_unix_socket-Leaves refusing_os (codes "dispatch.sock") demo_world

create_ssl_connection-Balances_example :
    Balances refusing_os
      (fresh_socket ssl_socket (pos 5) ssl false)
      demo_world
      (create_ssl_connection refusing_os (codes "localhost") 5555 demo_world)
create_ssl_connection-Balances_example =
    create_ssl_connection-Balances refusing_os (codes "localhost") 5555 demo_world (λ e. cc)
