-- ===== src/Tests/Programs.antt =====
-- The three programs from their start.
use socket_dispatcher.Prelude.{
  ℕ, ◌≡◌, refl, ◌≢◌, ◌⊎◌, false, List, [], ◌∷◌, arith, ◌==◌, if-both, pos, Bytes, codes, c_string,
}
use socket_dispatcher.World.{World, Halt, ok, halt, assertion_failed, released_twice}
use socket_dispatcher.Ssl.{initial_globals, create_client_context}
use socket_dispatcher.SocketFactory.Connection.{MayRefuseHandshake}
use socket_dispatcher.ClientProgram.{client_main}
use socket_dispatcher.ClientProgram.Session.{Ends, client_main-Ends}
use socket_dispatcher.Dispatcher.Main.{dispatcher_main, dispatcher_main-NoAssertion}
use socket_dispatcher.Listener.Main.{listener_main, complete}
use socket_dispatcher.Socket.{Socket}
use socket_dispatcher.Config.{read_command_arguments, read_options, check_options}
use socket_dispatcher.Listener.Main.Sound.{IsExpected, IsSound}
use socket_dispatcher.Listener.Main.Safety.{listener_main-Ends}
use socket_dispatcher.Tests.{demo_os, demo_world}

abbrev demo_words : List Bytes
demo_words = codes "hello" ∷ codes "again" ∷ []

client_main-Ends_example :
    let m = client_main demo_os demo_words initial_globals demo_world in
    ((code : ℕ) × (w' : World) × (m
        ≡ ok (code, (create_client_context demo_os initial_globals demo_world).1, w'))
      × Ends demo_os demo_words demo_world (code, w'))
    ⊎ ((m ≡ halt released_twice) × MayRefuseHandshake demo_os (pos 5))
unfolding create_client_context
client_main-Ends_example =
    client_main-Ends demo_os demo_words initial_globals demo_world refl (λ e. cc)
      ((λ e. cc), ((λ e. cc), tt))

dispatcher_main-NoAssertion_example :
    dispatcher_main demo_os [] 3 2 (codes "dispatch.sock" ∷ []) initial_globals demo_world
    ≢ halt assertion_failed
dispatcher_main-NoAssertion_example =
    dispatcher_main-NoAssertion demo_os [] 3 2 (codes "dispatch.sock" ∷ []) initial_globals
      demo_world

-- `getopt` on no options: the listener takes its defaults.
abbrev no_options : Bytes → List (ℕ × Bytes)
no_options options = []

demo-IsSound : IsSound demo_world
demo-IsSound r on =
    let off : (demo_world.cell r).listen_socket ≡ false =
      if-both (λ (s : Socket). s.listen_socket ≡ false) (r == 1) refl refl in
    cc

listener_main-Ends_example :
    let m = listener_main demo_os (codes "42") 4 no_options initial_globals demo_world in
    ((x : ℕ × World) × (m ≡ ok x)) ⊎ ((h : Halt) × (m ≡ halt h) × IsExpected demo_os h)
unfolding c_string complete read_command_arguments read_options check_options
listener_main-Ends_example =
    listener_main-Ends demo_os (codes "42") 3 no_options initial_globals demo_world demo-IsSound
      (λ t. refl) (λ t h. ground arith) (omega arith)
