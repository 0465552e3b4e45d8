-- ===== src/ClientProgram.antt =====
-- myclnt.cpp: the client's `main`, from the connection to the end of its dialogue.
pub mod Session
use socket_dispatcher.Prelude.{ℕ, Option, none, some, List, [], ◌∷◌, Bytes, codes}
use socket_dispatcher.World.{Ref, Os, World, Result, ok, halt, ◌>>=◌}
use socket_dispatcher.SocketUtils.{read, write_message, destroy}
use socket_dispatcher.Ssl.{SslGlobals, create_client_context}
use socket_dispatcher.SocketFactory.Factories.{
  SocketFactory, create_socket, create_tcp_ssl_connect_socket_factory,
}

abbrev pub client_port : ℕ
client_port = 5555

-- The loop: `words` are what `std::cin >> userInputLine` has still to give; behind them it gives the
-- empty string. No result of a read or a write is looked at but for the printing.
unfoldable pub chat : Os → Ref → List Bytes → World → World
chat os r [] w = (write_message os r (codes "EXIT") (read os r 1024 w).1).1
chat os r (word ∷ words) w = elim word [
  | [] ↦ (write_message os r (codes "EXIT") (read os r 1024 w).1).1
  | b ∷ bs ↦ chat os r words (write_message os r (b ∷ bs) (read os r 1024 w).1).1
]

-- What follows the connection: the exit code, and the socket that goes away at the end.
unfoldable pub talk : Os → List Bytes → Option Ref → World → ℕ × World
talk os words none w = (1, w)
talk os words (some r) w = (0, destroy r (chat os r words w))

-- What follows once the factory is there.
unfoldable pub converse :
    Os → List Bytes → SslGlobals → SocketFactory → World → Result (ℕ × SslGlobals × World)
converse os words g factory w = do
  connected ← create_socket os 0 factory w
  let done = talk os words connected.0 connected.1
  ok (done.0, g, done.1)

-- `main`. The result of `createClientContext` is not looked at. The exception that the factory
-- throws where there is no context is caught there and ends the program with the code 1.
unfoldable pub client_main : Os → List Bytes → SslGlobals → World → Result (ℕ × SslGlobals × World)
client_main os words g w =
    let created = create_client_context os g w in
    elim (create_tcp_ssl_connect_socket_factory created.1.context (codes "localhost") client_port) [
      | ok factory ↦ converse os words created.1 factory created.2
      | halt h ↦ ok (1, created.1, created.2)
    ]
