-- ===== src/Config.antt =====
-- ApplicationConfig.h, ApplicationConfig.cpp, and `processConfig` of mydisp.cpp: the settings of a
-- process, from the command line or from the lines that the listener sends.
pub mod Lines
pub mod Arguments
use socket_dispatcher.Prelude.{
  ℕ, suc, ◌+◌, Bool, true, false, ◌||◌, Option, none, some, List, [], ◌∷◌, ◌++◌, ltb, ◌==◌,
  if◌then◌else◌, length, drop, Bytes, codes, starts_with, c_string,
}
use socket_dispatcher.World.{◌>>=◌, Os, World, Result, ok, halt, buffer_overrun}
use socket_dispatcher.Ssl.{SslGlobals, create_context}

pub data ApplicationType : Type 0 where
  listener dispatcher : ApplicationType

pub record ApplicationConfig : Type 0 where
  pub application_type : ApplicationType
  pub is_ok : Bool
  pub ca_file : Bytes
  pub cert_file : Bytes
  pub key_file : Bytes
  pub disp_path : Bytes

-- `ApplicationConfig::create(applicationType)`
abbrev pub create : ApplicationType → ApplicationConfig
create t = record {
  application_type = t;
  is_ok = false;
  ca_file = [];
  cert_file = [];
  key_file = [];
  disp_path = [];
}

abbrev pub config_pid : Bytes
config_pid = codes "CONFIGPPID="

abbrev pub ca_file_name : Bytes
ca_file_name = codes "CAFILE="

abbrev pub cert_file_name : Bytes
cert_file_name = codes "CERTFILE="

abbrev pub key_file_name : Bytes
key_file_name = codes "KEYFILE="

-- `retrieveConfigOption` on the memory that its argument points to.
unfoldable pub retrieve_config_option : Bytes → ApplicationConfig → ApplicationConfig
retrieve_config_option memory c =
    if starts_with config_pid memory
    then c
    else if starts_with ca_file_name memory
    then record c { ca_file = c_string (drop (length ca_file_name) memory) }
    else if starts_with cert_file_name memory
    then record c { cert_file = c_string (drop (length cert_file_name) memory) }
    else if starts_with key_file_name memory
    then record c { key_file = c_string (drop (length key_file_name) memory) }
    else c

abbrev pub line_buffer_size : ℕ
line_buffer_size = 256

-- `memcpy` of a line into `lineBuffer` and the NUL behind it; the bytes past that stay.
abbrev pub copy_line : Bytes → Bytes → Bytes
copy_line line buffer = line ++ 0 ∷ drop (suc (length line)) buffer

-- The loop of `processConfig`: `line` is what lies between `startPointer` and `endPointer`, `buffer`
-- is `lineBuffer`, and the bytes from `endPointer` on are still to come. A line that does not fit
-- with its NUL overruns `lineBuffer`.
unfoldable pub read_lines : Bytes → Bytes → Bytes → ApplicationConfig → Result ApplicationConfig
read_lines line buffer [] c = ok c
read_lines line buffer (b ∷ bs) c = elim (b == b'\n') [
  | true ↦ elim (ltb (length line) line_buffer_size) [
    | true ↦
        let copied = copy_line line buffer in
        read_lines [] copied bs (retrieve_config_option copied c)
    | false ↦ halt buffer_overrun
  ]
  | false ↦ read_lines (line ++ b ∷ []) buffer bs c
]

abbrev pub password : Bytes
password = codes "1q2w3e4r"

-- `processConfig` on the bytes received; `buffer` is what the stack held where `lineBuffer` lies.
unfoldable pub process_config :
    Os
    → Bytes
    → Bytes
    → ApplicationConfig
    → SslGlobals
    → World
    → Result (Bool × ApplicationConfig × SslGlobals × World)
unfolding read_lines
process_config os buffer input c g w = do
  c' ← read_lines [] buffer input c
  let created = create_context os c'.ca_file c'.cert_file c'.key_file password g w
  ok (created.0 == 0, c', created.1, created.2)

-- `-a`, `-c`, `-k` and `-p` set a file; any other answer of `getopt` ends the loop (`none`).
unfoldable pub take_option : ℕ × Bytes → ApplicationConfig → Option ApplicationConfig
take_option (opt, optarg) c =
    if opt == b'a'
    then some (record c { ca_file = optarg })
    else if opt == b'c'
    then some (record c { cert_file = optarg })
    else if opt == b'k'
    then some (record c { key_file = optarg })
    else if opt == b'p'
    then some (record c { disp_path = optarg })
    else none

-- The loop over the answers of `getopt` up to its -1: each a character and `optarg`.
unfoldable pub read_options : List (ℕ × Bytes) → ApplicationConfig → ApplicationConfig
read_options [] c = c
read_options (o ∷ os) c = elim (take_option o c) [ none ↦ c | some c' ↦ read_options os c' ]

abbrev pub option_string : ApplicationType → Bytes
option_string listener = codes "a:c:k:"
option_string dispatcher = codes "p:a:c:k:"

abbrev pub is_blank : Bytes → Bool
is_blank [] = true
is_blank (b ∷ bs) = false

abbrev pub needs_path : ApplicationType → Bool
needs_path listener = false
needs_path dispatcher = true

-- The tests after the loop.
unfoldable pub check_options : ApplicationConfig → ApplicationConfig
check_options c =
    let files : ApplicationConfig = record c {
      is_ok =
          if is_blank c.ca_file || (is_blank c.cert_file || is_blank c.key_file)
          then false
          else true;
    } in
    if needs_path c.application_type
    then (if is_blank c.disp_path then record files { is_ok = false } else files)
    else files

-- `readCommandArguments`. `getopt` gives the list of its answers for an option string.
unfoldable pub read_command_arguments :
    (Bytes → List (ℕ × Bytes)) → ApplicationConfig → ApplicationConfig
read_command_arguments getopt c =
    check_options (read_options (getopt (option_string c.application_type)) c)
