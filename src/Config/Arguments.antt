-- ===== src/Config/Arguments.antt =====
-- The command line: which option gives each setting, and when the settings are complete.
use socket_dispatcher.Prelude.{
  ℕ, ◌≡◌, refl, Bool, not, ◌&&◌, ◌||◌, List, [], ◌∷◌, arith, ◌==◌, if◌then◌else◌, Bytes,
}
use socket_dispatcher.Config.{
  ApplicationConfig, take_option, read_options, option_string, is_blank, needs_path, check_options,
  read_command_arguments,
}

-- The options before the first that `getopt` or the program refuses.
abbrev pub is_known : ℕ → Bool
is_known opt = opt == b'a' || (opt == b'c' || (opt == b'k' || opt == b'p'))

pub accepted : List (ℕ × Bytes) → List (ℕ × Bytes)
accepted [] = []
accepted ((opt, arg) ∷ os) = if is_known opt then (opt, arg) ∷ accepted os else []

-- The argument of the last option `opt`, or the value before.
pub last_of : ℕ → List (ℕ × Bytes) → Bytes → Bytes
last_of opt [] before = before
last_of opt ((o, arg) ∷ os) before = last_of opt os (if o == opt then arg else before)

-- The settings that the options give to a configuration.
abbrev pub Gives : List (ℕ × Bytes) → ApplicationConfig → ApplicationConfig → Type 0
Gives os c d =
    (d.ca_file ≡ last_of b'a' os c.ca_file)
    × (d.cert_file ≡ last_of b'c' os c.cert_file)
    × (d.key_file ≡ last_of b'k' os c.key_file)
    × (d.disp_path ≡ last_of b'p' os c.disp_path)
    × (d.application_type ≡ c.application_type)

read_options-Gives :
    (os : List (ℕ × Bytes)) (c : ApplicationConfig) → Gives (accepted os) c (read_options os c)
unfolding read_options take_option accepted last_of
read_options-Gives [] c = (refl, refl, refl, refl, refl)
read_options-Gives ((opt, arg) ∷ os) c = ground (
  arith,
  read_options-Gives os (record c { ca_file = arg }),
  read_options-Gives os (record c { cert_file = arg }),
  read_options-Gives os (record c { key_file = arg }),
  read_options-Gives os (record c { disp_path = arg }),
)

-- All that a process of this type needs is there.
abbrev pub is_complete : ApplicationConfig → Bool
is_complete c =
    not (is_blank c.ca_file)
    && (not (is_blank c.cert_file)
        && (not (is_blank c.key_file)
            && (not (needs_path c.application_type) || not (is_blank c.disp_path))))

check_options-ok : (c : ApplicationConfig) → (check_options c).is_ok ≡ is_complete (check_options c)
unfolding check_options
check_options-ok c = ground arith

check_options-Gives :
    (os : List (ℕ × Bytes)) (c d : ApplicationConfig) → Gives os c d → Gives os c (check_options d)
unfolding check_options
check_options-Gives os c d h = ground arith

-- Only the options before the first one that `getopt` or the program refuses count: each setting is
-- the argument of its last option among these, or as it was before, and the process keeps its type.
-- The configuration is reported complete exactly when the three files, and for a dispatcher also the
-- path, are not empty afterwards, whether or not an option was refused.
pub read_command_arguments_lem :
    (getopt : Bytes → List (ℕ × Bytes)) (c : ApplicationConfig)
    → let d = read_command_arguments getopt c in
      Gives (accepted (getopt (option_string c.application_type))) c d × (d.is_ok ≡ is_complete d)
unfolding read_command_arguments
read_command_arguments_lem getopt c =
    let os = getopt (option_string c.application_type) in
    let d = read_options os c in
    (check_options-Gives (accepted os) c d (read_options-Gives os c), check_options-ok d)
