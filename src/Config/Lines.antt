-- ===== src/Config/Lines.antt =====
-- `processConfig` line by line, against a description that knows no buffer.
use socket_dispatcher.Prelude.{
  suc, ◌≤◌, ◌<◌, ◌≡◌, refl, ap, ◌∙◌, ◌≢◌, inl, inr, true, false, List, [], ◌∷◌, ◌++◌, append-nil,
  append_assoc, arith, ltb, ◌==◌, if◌then◌else◌, Bool-cases, length, drop, All, Bytes, starts_with,
  c_string, IsText,
}
use socket_dispatcher.World.{ok, halt, buffer_overrun}
use socket_dispatcher.Config.{
  ApplicationConfig, config_pid, ca_file_name, cert_file_name, key_file_name,
  retrieve_config_option, line_buffer_size, copy_line, read_lines,
}

-- The effect of one line, with no regard to what lies behind it in memory.
unfoldable pub apply_line : Bytes → ApplicationConfig → ApplicationConfig
apply_line line c =
    if starts_with config_pid line
    then c
    else if starts_with ca_file_name line
    then record c { ca_file = c_string (drop 7 line) }
    else if starts_with cert_file_name line
    then record c { cert_file = c_string (drop 9 line) }
    else if starts_with key_file_name line
    then record c { key_file = c_string (drop 8 line) }
    else c

-- A text with no newline, and of at most 255 bytes.
abbrev pub IsLine : Bytes → Type 0
IsLine line = All (λ b. b ≢ b'\n') line

abbrev pub Fits : Bytes → Type 0
Fits line = length line < line_buffer_size

-- Lines, each with its newline.
abbrev pub unlines : List Bytes → Bytes
unlines [] = []
unlines (l ∷ ls) = l ++ b'\n' ∷ unlines ls

abbrev pub apply_lines : List Bytes → ApplicationConfig → ApplicationConfig
apply_lines [] c = c
apply_lines (l ∷ ls) c = apply_lines ls (apply_line l c)

-- Behind the NUL, memory does not count.
starts_with-terminated :
    (p line rest : Bytes) → IsText p → starts_with p (line ++ 0 ∷ rest) ≡ starts_with p line
unfolding starts_with
starts_with-terminated [] line rest t = refl
starts_with-terminated (x ∷ p) [] rest t = ground arith
starts_with-terminated (x ∷ p) (y ∷ line) rest t =
    ground (arith, starts_with-terminated p line rest t.1)

c_string-terminated : (line rest : Bytes) → c_string (line ++ 0 ∷ rest) ≡ c_string line
unfolding c_string
c_string-terminated [] rest = refl
c_string-terminated (b ∷ line) rest = ground (arith, c_string-terminated line rest)

drop-terminated :
    (p line rest : Bytes)
    → starts_with p line ≡ true
    → drop (length p) (line ++ 0 ∷ rest) ≡ drop (length p) line ++ 0 ∷ rest
unfolding starts_with
drop-terminated [] line rest h = refl
drop-terminated (x ∷ p) [] rest h = cc
drop-terminated (x ∷ p) (y ∷ line) rest h = drop-terminated p line rest (ground arith)

value-terminated :
    (p line rest : Bytes)
    → starts_with p line ≡ true
    → c_string (drop (length p) (line ++ 0 ∷ rest)) ≡ c_string (drop (length p) line)
value-terminated p line rest h =
    ap c_string (drop-terminated p line rest h) ∙ c_string-terminated (drop (length p) line) rest

retrieve-apply :
    (line rest : Bytes) (c : ApplicationConfig)
    → retrieve_config_option (line ++ 0 ∷ rest) c ≡ apply_line line c
unfolding retrieve_config_option apply_line
retrieve-apply line rest c =
    rw
      (
        starts_with-terminated config_pid line rest (omega arith),
        starts_with-terminated ca_file_name line rest (omega arith),
        starts_with-terminated cert_file_name line rest (omega arith),
        starts_with-terminated key_file_name line rest (omega arith),
      )
      (elim (Bool-cases (starts_with ca_file_name line)) [
        | inl e ↦ rw (e, value-terminated ca_file_name line rest e)
        | inr e ↦ rw e (elim (Bool-cases (starts_with cert_file_name line)) [
          | inl f ↦ rw (f, value-terminated cert_file_name line rest f)
          | inr f ↦ rw f (elim (Bool-cases (starts_with key_file_name line)) [
            | inl g ↦ rw (g, value-terminated key_file_name line rest g)
            | inr g ↦ rw g
          ])
        ])
      ])

module _ (buffer : Bytes) (c : ApplicationConfig) where
  -- Bytes before a newline are collected.
  read_lines-collect :
      (line text rest : Bytes)
      → IsLine text
      → read_lines line buffer (text ++ rest) c ≡ read_lines (line ++ text) buffer rest c
  unfolding read_lines
  read_lines-collect line [] rest h = rw (append-nil line)
  read_lines-collect line (b ∷ text) rest h =
      let other : (b == b'\n') ≡ false = ground (arith, h.0) in
      rw (other, read_lines)
        (read_lines-collect (line ++ b ∷ []) text rest h.1 ∙ rw (append_assoc line (b ∷ []) text))

  read_lines-newline :
      (line rest : Bytes)
      → Fits line
      → read_lines line buffer (b'\n' ∷ rest) c
        ≡ read_lines [] (copy_line line buffer) rest (apply_line line c)
  unfolding read_lines
  read_lines-newline line rest h =
      let fits : ltb (length line) line_buffer_size ≡ true = ground arith in
      rw (fits, read_lines) (rw (retrieve-apply line (drop (suc (length line)) buffer) c))

  read_lines-overrun :
      (line rest : Bytes)
      → line_buffer_size ≤ length line
      → read_lines line buffer (b'\n' ∷ rest) c ≡ halt buffer_overrun
  unfolding read_lines
  read_lines-overrun line rest h =
      let long : ltb (length line) line_buffer_size ≡ false = ground arith in rw (long, read_lines)

read_lines_unfinished :
    (buffer : Bytes) (c : ApplicationConfig) (rest : Bytes)
    → IsLine rest
    → read_lines [] buffer rest c ≡ ok c
read_lines_unfinished buffer c rest h =
    let whole : read_lines [] buffer (rest ++ []) c ≡ ok c =
      read_lines-collect buffer c [] rest [] h ∙ unfold read_lines in refl in
    rw (append-nil rest) at whole

-- The loop takes complete lines that fit one after the other, whatever the stack held.
read_lines-unlines :
    (ls : List Bytes) (buffer rest : Bytes) (c : ApplicationConfig)
    → All IsLine ls
    → All Fits ls
    → (buffer' : Bytes) × (read_lines [] buffer (unlines ls ++ rest) c
        ≡ read_lines [] buffer' rest (apply_lines ls c))
read_lines-unlines [] buffer rest c h f = (buffer, refl)
read_lines-unlines (l ∷ ls) buffer rest c h f =
    let (buffer', e) = read_lines-unlines ls (copy_line l buffer) rest (apply_line l c) h.1 f.1 in
    (
      buffer',
      rw (append_assoc l (b'\n' ∷ unlines ls) rest) (
          read_lines-collect buffer c [] l (b'\n' ∷ (unlines ls ++ rest)) h.0
          ∙ read_lines-newline buffer c l (unlines ls ++ rest) f.0
          ∙ e),
    )

-- On lines of at most 255 bytes and a rest with no newline, `processConfig` applies the options of
-- the lines in order and ignores the rest, whatever `lineBuffer` held before: the stale bytes behind
-- the NUL of a shorter line never count.
pub read_lines_lem :
    (ls : List Bytes) (rest buffer : Bytes) (c : ApplicationConfig)
    → All IsLine ls
    → All Fits ls
    → IsLine rest
    → read_lines [] buffer (unlines ls ++ rest) c ≡ ok (apply_lines ls c)
read_lines_lem ls rest buffer c h f r =
    let (buffer', e) = read_lines-unlines ls buffer rest c h f in
    e ∙ read_lines_unfinished buffer' (apply_lines ls c) rest r

-- The first line of 256 bytes or more overruns `lineBuffer`, whatever follows it.
pub read_lines_long :
    (ls : List Bytes) (long rest buffer : Bytes) (c : ApplicationConfig)
    → All IsLine ls
    → All Fits ls
    → IsLine long
    → line_buffer_size ≤ length long
    → read_lines [] buffer (unlines ls ++ (long ++ b'\n' ∷ rest)) c ≡ halt buffer_overrun
read_lines_long ls long rest buffer c h f l n =
    let (buffer', e) = read_lines-unlines ls buffer (long ++ b'\n' ∷ rest) c h f in
    e
    ∙ read_lines-collect buffer' (apply_lines ls c) [] long (b'\n' ∷ rest) l
    ∙ read_lines-overrun buffer' (apply_lines ls c) long rest n
