-- ===== src/Ssl/Quiet.antt =====
-- Making and giving up the TLS context opens and closes no descriptor.
use socket_dispatcher.Prelude.{ℕ, refl, not, if-both, pos, ◌==ℤ◌, Bytes}
use socket_dispatcher.World.{Os, World}
use socket_dispatcher.World.Quiet.{Quiet}
use socket_dispatcher.Ssl.{
  SslGlobals, fail_context, load_locations, load_key, create_context, drop_context,
}

module _ (Q : World → Type 0) (q : Quiet Q) (os : Os) where
  abbrev Context : ℕ × SslGlobals × World → Type 0
  Context x = Q x.2

  fail_context-keeps : (g : SslGlobals) (w : World) → Q w → Q (fail_context os g w).2
  unfolding fail_context
  fail_context-keeps g w h = q.calls _ _ refl (q.calls _ w refl h)

  load_key-keeps :
      (ca_file key_file : Bytes) (g : SslGlobals) (w : World)
      → Q w
      → Q (load_key os ca_file key_file g w).2
  unfolding load_key load_locations
  load_key-keeps ca_file key_file g w h =
      let k = q.calls _ w refl h in
      if-both Context (os.private_key_used w.trace key_file g.key_file_password ==ℤ pos 1)
        (if-both Context (os.locations_loaded _ ca_file ==ℤ pos 1) (q.calls _ _ refl k)
          (fail_context-keeps g _ (q.calls _ _ refl k)))
        (fail_context-keeps g _ k)

  pub create_context-keeps :
      (ca_file crt_file key_file word : Bytes) (g : SslGlobals) (w : World)
      → Q w
      → Q (create_context os ca_file crt_file key_file word g w).2
  unfolding create_context
  create_context-keeps ca_file crt_file key_file word g w h =
      let k = q.calls _ _ refl (q.calls _ w refl h) in
      if-both Context g.context h (
        if-both Context (os.certificate_used _ crt_file ==ℤ pos 1)
          (load_key-keeps ca_file key_file _ _ k) (fail_context-keeps _ _ k))

module _ (Q : World → Type 0) (q : Quiet Q) where
  pub drop_context-keeps : (g : SslGlobals) (w : World) → Q w → Q (drop_context g w).1
  unfolding drop_context
  drop_context-keeps g w h =
      if-both (λ (x : SslGlobals × World). Q x.1) (not g.context) h (q.calls _ w refl h)
