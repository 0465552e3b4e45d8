-- ===== src/Listener/Quiet.antt =====
-- Passing a client on opens and closes nothing.
use socket_dispatcher.Prelude.{
  ◌≡◌, refl, inl, inr, Bool, false, List, [], ◌∷◌, ltb, if◌then◌else◌, if-both, Bool-cases, length,
  is_negative, Bytes,
}
use socket_dispatcher.World.{Ref, Os, World, Halt, assertion_failed, write, call, descriptor_of}
use socket_dispatcher.World.Outcomes.{Outcome, Outcome-return, Outcome-halt}
use socket_dispatcher.SocketsList.{SocketsList}
use socket_dispatcher.SocketUtils.{destroy}
use socket_dispatcher.Config.{ApplicationConfig}
use socket_dispatcher.World.Quiet.{Quiet}
use socket_dispatcher.Passing.Quiet.{send_socket-keeps}
use socket_dispatcher.Listener.{
  is_dispatcher, pass_client, send_config, config_label, config_message,
}

module _ (Q : World → Type 0) (q : Quiet Q) where
  pub pass_client-keeps :
      (os : Os) (client : Ref) (l : List Ref) (w : World) → Q w → Q (pass_client os client l w)
  unfolding pass_client
  pass_client-keeps os client [] w h = h
  pass_client-keeps os client (s ∷ ss) w h =
      pass_client-keeps os client ss _
        (if-both Q (is_dispatcher (w.cell s)) (send_socket-keeps Q q os s client w h) h)

  -- The configuration is sent, and a socket that found no place goes away.
  pub send_config-keeps :
      (H : Halt → Type 0) (R : World → Type 0) (os : Os) (pid : Bytes) (c : ApplicationConfig)
      (s : Ref) (entered : Bool) (l : SocketsList) (w : World)
      → (ltb (length (config_message pid c)) 4096 ≡ false → H assertion_failed)
      → ((v : World) → Q v → R (if entered then v else destroy s v))
      → Q w
      → Outcome H
          (λ (x : Bool × SocketsList × World). (x.1 ≡ l) × R x.2)
          (send_config os pid c s (entered, l) w)
  unfolding send_config
  send_config-keeps H R os pid c s entered l w long last h =
      let Sent = λ (x : Bool × SocketsList × World). (x.1 ≡ l) × R x.2 in
      let fd = descriptor_of w s in
      let k₁ = q.calls (write fd config_label) w refl h in
      let k₂ = q.calls (write fd (config_message pid c)) (call (write fd config_label) w) refl k₁ in
      if-both (Outcome H Sent) (is_negative (os.written w.trace fd config_label))
        (Outcome-return H Sent (refl, last _ k₁))
        (elim (Bool-cases (ltb (length (config_message pid c)) 4096)) [
          | inl fits ↦ rw fits (Outcome-return H Sent (refl, last _ k₂))
          | inr too_long ↦ rw too_long (Outcome-halt H Sent (long too_long))
        ])
