-- ===== src/Dispatcher/Quiet.antt =====
-- The configuration and the requests for input open and close nothing.
use socket_dispatcher.Prelude.{ℕ, refl, Bool, List, [], ◌∷◌, Bytes}
use socket_dispatcher.Socket.{tcp, ssl, unix, unknown, poll_for_read}
use socket_dispatcher.World.{Ref, Os, World, modify}
use socket_dispatcher.World.Outcomes.{Outcome, Outcome-return, Outcome-bind, Outcome-any, AnyHalt}
use socket_dispatcher.World.Quiet.{Quiet}
use socket_dispatcher.Ssl.{SslGlobals}
use socket_dispatcher.Ssl.Quiet.{create_context-keeps}
use socket_dispatcher.Config.{ApplicationConfig, process_config, read_lines}
use socket_dispatcher.Dispatcher.{request_input}

module _ (Q : World → Type 0) (q : Quiet Q) where
  pub request_input-keeps :
      (os : Os) (stack : Bytes) (fuel : ℕ) (rs : List Ref) (w : World)
      → Q w
      → Q (request_input os stack fuel rs w)
  unfolding request_input
  request_input-keeps os stack fuel [] w h = h
  request_input-keeps os stack fuel (r ∷ rs) w h =
      let k = q.changes poll_for_read r w (λ s. (refl, refl, refl, refl, refl)) h in
      request_input-keeps os stack fuel rs _
        (elim (w.cell r).socket_type
          as (λ t. Q (elim t [ unix ↦ w | _ ↦ modify r poll_for_read w ])) [
            | unix ↦ h
            | tcp ↦ k
            | ssl ↦ k
            | unknown ↦ k
          ])

  pub process_config-keeps :
      (os : Os) (stack input : Bytes) (c : ApplicationConfig) (g : SslGlobals) (w : World)
      → Q w
      → Outcome AnyHalt
          (λ (x : Bool × ApplicationConfig × SslGlobals × World). Q x.3)
          (process_config os stack input c g w)
  unfolding process_config
  process_config-keeps os stack input c g w h =
      let Done = λ (x : Bool × ApplicationConfig × SslGlobals × World). Q x.3 in
      Outcome-bind AnyHalt (λ (c' : ApplicationConfig). Unit) Done (read_lines [] stack input c) _
        (Outcome-any _)
        λ c' _. Outcome-return AnyHalt Done (create_context-keeps Q q os _ _ _ _ g w h)
