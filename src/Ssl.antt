-- ===== src/Ssl.antt =====
-- InitSsl.h and InitSsl.cpp: the global TLS context of a process.
pub mod Context
pub mod Quiet
use socket_dispatcher.Prelude.{
  ℕ, ◌%◌, Bool, false, not, ◌&&◌, [], ltb, ◌==◌, if◌then◌else◌, length, ℤ, pos, negsuc, ◌==ℤ◌,
  Bytes,
}
use socket_dispatcher.World.{
  Os, World, call, ssl_ctx_new, ssl_ctx_free, use_certificate_chain_file, use_private_key_file,
  load_verify_locations, err_get_error,
}

-- The globals: whether `sslGlobalCtx` is set, `sslError` (an `unsigned long`), and the password
-- that the callback hands out.
pub record SslGlobals : Type 0 where
  pub context : Bool
  pub error : ℕ
  pub key_file_password : Bytes

abbrev pub initial_globals : SslGlobals
initial_globals = record { context = false; error = 0; key_file_password = [] }

-- An `unsigned long` returned as an `int`: its low 32 bits.
abbrev pub as_int : ℕ → ℕ
as_int n = n % 4294967296

-- The bytes that the password callback copies into a buffer of `size` bytes: none where they do
-- not fit. (A size that is not positive is not compared.)
unfoldable pub pass_user_password : SslGlobals → ℤ → Bytes
pass_user_password g (pos size) =
    if ltb 0 size && ltb size (length g.key_file_password) then [] else g.key_file_password
pass_user_password g (negsuc n) = g.key_file_password

-- The three error exits: the error is fetched and kept, and the context is given up.
unfoldable pub fail_context : Os → SslGlobals → World → ℕ × SslGlobals × World
fail_context os g w =
    let code = os.error_code w.trace in
    (
      as_int code,
      record g { context = false; error = code },
      call ssl_ctx_free (call err_get_error w),
    )

unfoldable pub load_locations : Os → Bytes → SslGlobals → World → ℕ × SslGlobals × World
load_locations os ca_file g w =
    let w' = call (load_verify_locations ca_file) w in
    if os.locations_loaded w.trace ca_file ==ℤ pos 1
    then (as_int g.error, g, w')
    else fail_context os g w'

unfoldable pub load_key : Os → Bytes → Bytes → SslGlobals → World → ℕ × SslGlobals × World
load_key os ca_file key_file g w =
    let w' = call (use_private_key_file key_file g.key_file_password) w in
    if os.private_key_used w.trace key_file g.key_file_password ==ℤ pos 1
    then load_locations os ca_file g w'
    else fail_context os g w'

-- `createContext`. The value is an `int`, as a bit pattern: callers test it against 0.
unfoldable pub create_context :
    Os → Bytes → Bytes → Bytes → Bytes → SslGlobals → World → ℕ × SslGlobals × World
create_context os ca_file crt_file key_file password g w =
    if g.context
    then (0, g, w)
    else (let g' : SslGlobals = record g {
      context = os.context_created w.trace;
      key_file_password = password;
    } in
        let w₁ = call ssl_ctx_new w in
        let w₂ = call (use_certificate_chain_file crt_file) w₁ in
        if os.certificate_used w₁.trace crt_file ==ℤ pos 1
        then load_key os ca_file key_file g' w₂
        else fail_context os g' w₂)

unfoldable pub create_client_context : Os → SslGlobals → World → ℕ × SslGlobals × World
create_client_context os g w =
    if g.context
    then (0, g, w)
    else (as_int g.error, record g { context = os.context_created w.trace }, call ssl_ctx_new w)

unfoldable pub drop_context : SslGlobals → World → SslGlobals × World
drop_context g w =
    if not g.context then (g, w) else (record g { context = false }, call ssl_ctx_free w)
