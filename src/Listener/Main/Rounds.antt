-- ===== src/Listener/Main/Rounds.antt =====
-- What a round of the listener's main loop keeps: `Q` before the poll, `R` after it.
use mathlib.Core.Path.{subst}
use socket_dispatcher.Prelude.{◌≡◌, sym, Bool, List, ◌∷◌, if-both, ℤ, is_positive, Bytes}
use socket_dispatcher.World.{PollFd, Os, World, Halt, poll, call}
use socket_dispatcher.World.Outcomes.{Outcome, Outcome-return, Outcome-bind}
use socket_dispatcher.SocketsList.{SocketsList, ErrorType, error, interrupted, timeout, success}
use socket_dispatcher.Poller.Bounds.{IsPollable, put_socket-IsPollable, del_socket-IsPollable}
use socket_dispatcher.Config.{ApplicationConfig}
use socket_dispatcher.Listener.{process_sockets}
use socket_dispatcher.Poller.Quiet.{poll_sockets-keeps}
use socket_dispatcher.Listener.Stable.{Stable, Stable-Quiet, release-keeps}
use socket_dispatcher.Listener.Main.Quiet.{
  ChildExcuses, create_dispatcher-keeps, wait_disp_child-keeps, request_all-keeps,
}
use socket_dispatcher.Listener.Steps.{Excuses, ListStable, Kept, process_sockets-keeps}
use socket_dispatcher.Listener.Main.{Listener, wait_disp_child, restart, react, prepare, round}

pub IsPollable-ListStable : ListStable IsPollable
IsPollable-ListStable = record { puts = put_socket-IsPollable; dels = del_socket-IsPollable }

-- The listener with the configuration `c`, a list that the poller accepts, and `Q` of its world.
abbrev pub Running : ApplicationConfig → (World → Type 0) → Listener → Type 0
Running c Q l = IsPollable l.sockets × (l.config ≡ c) × Q l.world

abbrev pub RunningWith : ApplicationConfig → (World → Type 0) → Bool × Listener → Type 0
RunningWith c Q x = Running c Q x.1

module _ (R : World → Type 0) (s : Stable R) (H : Halt → Type 0) (os : Os) (pid : Bytes)
    (c : ApplicationConfig) (x : Excuses R H pid c) (y : ChildExcuses os H) where
  restart-keeps : (l : Listener) → Running c R l → Outcome H (RunningWith c R) (restart os pid l)
  unfolding restart
  restart-keeps l h =
      let k = wait_disp_child-keeps R (Stable-Quiet R s) os l.world h.2 in
      if-both (Outcome H (RunningWith c R)) (is_positive (wait_disp_child os l.world).0)
        (Outcome-bind H (λ (v : ℤ × ℤ × World). R v.2) (RunningWith c R) _ _
          (create_dispatcher-keeps R (Stable-Quiet R s) H os y l.disp_pid _ k)
          λ created k'. Outcome-return H (RunningWith c R) (h.0, h.1, k'))
        (Outcome-return H (RunningWith c R) (h.0, h.1, k))

  react-keeps :
      (e : ErrorType) (l : Listener)
      → Running c R l
      → Outcome H (RunningWith c R) (react os pid e l)
  unfolding react
  react-keeps timeout l h = restart-keeps l h
  react-keeps interrupted l h = Outcome-return H (RunningWith c R) h
  react-keeps error l h = Outcome-return H (RunningWith c R) h
  react-keeps success l h =
      let m =
        process_sockets-keeps IsPollable IsPollable-ListStable R s H os pid c x l.ready.sockets
          l.sockets l.world h.0 h.2 in
      Outcome-bind H (Kept IsPollable R) (RunningWith c R) _ _
        (subst
          (λ (k : ApplicationConfig).
            Outcome H (Kept IsPollable R)
              (process_sockets os pid k l.ready.sockets l.sockets l.world))
          (sym h.1) m)
        λ done k. Outcome-return H (RunningWith c R) (k.0, h.1, k.1)

  module _ (Q : World → Type 0) (q : Stable Q)
      (tick : (entries : List PollFd) (w : World) → Q w → R (call (poll entries) w)) where
    pub round-keeps : (l : Listener) → Running c Q l → Outcome H (RunningWith c R) (round os pid l)
    unfolding round prepare
    round-keeps l h =
        let p = prepare os pid l in
        let kept = l.tcp_listener ∷ l.unix_listener ∷ l.sockets.sockets in
        let k =
          request_all-keeps Q (Stable-Quiet Q q) l.sockets.sockets _
            (release-keeps Q q kept l.ready.sockets l.world h.2) in
        Outcome-bind H (λ (v : ErrorType × World × SocketsList). R v.1) (RunningWith c R) _ _
          (poll_sockets-keeps Q (Stable-Quiet Q q) R (Stable-Quiet R s) tick H os p.sockets p.ready
            p.world h.0 k)
          λ polled k'.
            react-keeps polled.0 (record p { world = polled.1; ready = polled.2 }) (h.0, h.1, k')
