-- ===== src/Tests/Configs.antt =====
-- Command lines, configuration lines and contexts.
use socket_dispatcher.Prelude.{
  ℕ, zero, suc, ◌≡◌, refl, ◌≢◌, true, List, [], ◌∷◌, ◌++◌, arith, All, Bytes, codes, starts_with,
  c_string, if◌then◌else◌, pos, minus_one,
}
use socket_dispatcher.World.{Os, World, ok, halt, buffer_overrun}
use socket_dispatcher.Ssl.{
  SslGlobals, initial_globals, create_context, load_key, load_locations, fail_context,
}
use socket_dispatcher.Ssl.Context.{create_context-trace, create_context_stale, locations_stage}
use socket_dispatcher.Config.{
  ApplicationConfig, listener, dispatcher, create, read_lines, read_command_arguments,
}
use socket_dispatcher.Config.Lines.{apply_line, read_lines_lem, read_lines_long}
use socket_dispatcher.Config.Arguments.{Gives, accepted, is_complete, read_command_arguments_lem}
use socket_dispatcher.Listener.{config_label, config_message}
use socket_dispatcher.Listener.Configuration.{read_lines-config_message}
use socket_dispatcher.Tests.{demo_os, demo_world, demo_config, listener_config}

abbrev demo_lines : List Bytes
demo_lines = codes "CAFILE=ca" ∷ codes "KEYFILE=k" ∷ []

read_lines_lem_example :
    read_lines [] [] (codes "CAFILE=ca\nKEYFILE=k\nCERT") demo_config
    ≡ ok (record demo_config { ca_file = codes "ca"; key_file = codes "k" })
unfolding starts_with c_string apply_line
read_lines_lem_example =
    read_lines_lem demo_lines (codes "CERT") [] demo_config (omega arith) (omega arith)
      (omega arith)

abbrev repeat : ℕ → ℕ → Bytes
repeat zero b = []
repeat (suc n) b = b ∷ repeat n b

All-repeat : (P : ℕ → Type 0) (n b : ℕ) → P b → All P (repeat n b)
All-repeat P zero b h = tt
All-repeat P (suc n) b h = (h, All-repeat P n b h)

abbrev long_line : Bytes
long_line = repeat 256 b'x'

read_lines_long_example :
    read_lines [] [] (codes "CAFILE=ca\nKEYFILE=k\n" ++ (long_line ++ b'\n' ∷ [])) demo_config
    ≡ halt buffer_overrun
read_lines_long_example =
    read_lines_long demo_lines long_line [] [] demo_config (omega arith) (omega arith)
      (All-repeat (λ b. b ≢ b'\n') 256 b'x' (omega arith)) (omega arith)

-- `getopt` on `-a ca -c crt -k key -p ./` with the options of a listener refuses the last one.
abbrev demo_getopt : Bytes → List (ℕ × Bytes)
demo_getopt options =
    (b'a', codes "ca") ∷ (b'c', codes "crt") ∷ (b'k', codes "key") ∷ (b'?', []) ∷ []

read_command_arguments_lem_example :
    let d = read_command_arguments demo_getopt (create listener) in
    Gives (accepted (demo_getopt (codes "a:c:k:"))) (create listener) d × (d.is_ok ≡ is_complete d)
read_command_arguments_lem_example = read_command_arguments_lem demo_getopt (create listener)

create_context-trace_example :
    let result =
      create_context demo_os
        (codes "ca")
        (codes "crt")
        (codes "key")
        (codes "pw")
        initial_globals
        demo_world in
    (result.2.trace
      ≡ locations_stage demo_os
          (codes "ca")
          (codes "crt")
          (codes "key")
          (codes "pw")
          initial_globals
          demo_world)
    × (result.1.context ≡ true)
create_context-trace_example =
    create_context-trace demo_os (codes "ca") (codes "crt") (codes "key") (codes "pw")
      initial_globals demo_world refl

-- A system that refuses the certificate "old" with error 7.
abbrev choosy_os : Os
choosy_os = record demo_os {
  certificate_used = λ t file. if starts_with (codes "old") file then minus_one else pos 1;
  error_code = λ t. 7;
}

abbrev with_certificate : Bytes → SslGlobals → World → ℕ × SslGlobals × World
with_certificate file = create_context choosy_os (codes "ca") file (codes "key") (codes "pw")

abbrev refused : ℕ × SslGlobals × World
refused = with_certificate (codes "old") initial_globals demo_world

create_context_stale_example : (with_certificate (codes "new") refused.1 refused.2).0 ≡ refused.0
unfolding create_context load_key load_locations fail_context starts_with
create_context_stale_example =
    create_context_stale choosy_os initial_globals (codes "ca") (codes "old") (codes "key")
      (codes "pw") demo_world (codes "ca") (codes "new") (codes "key") (codes "pw") refused.2 refl
      refl

-- The number that both report.
refused_seven : refused.0 ≡ 7
unfolding create_context load_key load_locations fail_context starts_with
refused_seven = refl

abbrev dispatcher_config : ApplicationConfig
dispatcher_config = record (create dispatcher) {
  ca_file = codes "ca.pem";
  cert_file = codes "cert.pem";
  key_file = codes "key.pem";
}

read_lines-config_message_example :
    read_lines [] []
      (config_label ++ config_message (codes "42") listener_config)
      (create dispatcher)
    ≡ ok dispatcher_config
read_lines-config_message_example =
    read_lines-config_message (codes "42") [] listener_config (create dispatcher) (omega arith)
      (omega arith) (omega arith) (omega arith)

-- A label that arrives before the rest of the configuration sets nothing.
lone_label : read_lines [] [] config_label (create dispatcher) ≡ ok (create dispatcher)
unfolding read_lines
lone_label = refl
