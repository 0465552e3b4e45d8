-- ===== src/Ssl/Context.antt =====
-- Which calls `createContext` makes, and what it leaves behind.
use socket_dispatcher.Prelude.{
  ◌≡◌, sym, ap, ◌∙◌, inl, inr, Bool, true, false, ◌&&◌, ◌∷◌, arith, Bool-cases, if◌then◌else◌, pos,
  ◌==ℤ◌, Bytes,
}
use socket_dispatcher.World.{
  Os, World, Trace, ssl_ctx_new, ssl_ctx_free, use_certificate_chain_file, use_private_key_file,
  load_verify_locations, err_get_error,
}
use socket_dispatcher.Ssl.{
  SslGlobals, as_int, fail_context, load_locations, load_key, create_context,
}

module _ (os : Os) (ca_file crt_file key_file password : Bytes) (g : SslGlobals) (w : World) where
  -- The calls up to each stage.
  abbrev pub certificate_stage : Trace
  certificate_stage = use_certificate_chain_file crt_file ∷ ssl_ctx_new ∷ w.trace

  abbrev pub key_stage : Trace
  key_stage = use_private_key_file key_file password ∷ certificate_stage

  abbrev pub locations_stage : Trace
  locations_stage = load_verify_locations ca_file ∷ key_stage

  abbrev pub certificate_ok : Bool
  certificate_ok = os.certificate_used (ssl_ctx_new ∷ w.trace) crt_file ==ℤ pos 1

  abbrev pub key_ok : Bool
  key_ok = os.private_key_used certificate_stage key_file password ==ℤ pos 1

  abbrev pub locations_ok : Bool
  locations_ok = os.locations_loaded key_stage ca_file ==ℤ pos 1

  -- The calls of a failure after a stage.
  abbrev pub failed_after : Trace → Trace
  failed_after t = ssl_ctx_free ∷ err_get_error ∷ t

  -- `createContext` with no context set loads the certificate, the key and the authorities, in this
  -- order, and stops at the first that OpenSSL refuses: it then asks for the error, frees the
  -- context, and leaves none set. With all three loaded the context stays set as it was created.
  pub create_context-trace :
      g.context ≡ false
      → let result = create_context os ca_file crt_file key_file password g w in
        (result.2.trace ≡ (
          if certificate_ok
          then if key_ok
            then if locations_ok then locations_stage else failed_after locations_stage
            else failed_after key_stage
          else failed_after certificate_stage))
        × (result.1.context
            ≡ (certificate_ok && (key_ok && (locations_ok && os.context_created w.trace))))
  unfolding create_context load_key load_locations fail_context
  create_context-trace h = ground arith

  -- The value is that of the error kept, which only a failure changes.
  create_context-error :
      g.context ≡ false
      → let result = create_context os ca_file crt_file key_file password g w in
        (result.0 ≡ as_int result.1.error) × (result.1.context ≡ true → result.1.error ≡ g.error)
  unfolding create_context load_key load_locations fail_context
  create_context-error h = ground arith

  -- A context that is set is kept, so one that is missing in the end was missing before.
  create_context-unset :
      (create_context os ca_file crt_file key_file password g w).1.context ≡ false
      → g.context ≡ false
  unfolding create_context
  create_context-unset h = elim (Bool-cases g.context) [
    | inl set ↦ let never : true ≡ false = rw (set, create_context) at h in cc
    | inr unset ↦ unset
  ]

-- A call of `createContext` that leaves no context set, and a later call, with any files, that sets
-- one: the later call reports the number that the earlier one reported, so a failure with a number
-- other than 0 is reported once more with a context that is set.
pub create_context_stale :
    (os : Os) (g : SslGlobals) (ca_file crt_file key_file password : Bytes) (w : World)
    (ca_file' crt_file' key_file' password' : Bytes) (w' : World)
    → let first = create_context os ca_file crt_file key_file password g w in
      let second = create_context os ca_file' crt_file' key_file' password' first.1 w' in
      first.1.context ≡ false → second.1.context ≡ true → second.0 ≡ first.0
create_context_stale os g ca_file crt_file key_file password w ca_file' crt_file' key_file'
      password' w' failed works =
    let first = create_context os ca_file crt_file key_file password g w in
    let h = create_context-unset os ca_file crt_file key_file password g w failed in
    let one = create_context-error os ca_file crt_file key_file password g w h in
    let two = create_context-error os ca_file' crt_file' key_file' password' first.1 w' failed in
    two.0 ∙ ap as_int (two.1 works) ∙ sym one.0
