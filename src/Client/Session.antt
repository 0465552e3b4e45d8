-- ===== src/Client/Session.antt =====
-- A client's session: the turns that the dispatcher takes with it, between which it does other work.
use socket_dispatcher.Prelude.{◌≤◌, ◌≡◌, refl, ◌∙◌, ◌≢◌, Bool, true, false, [], ◌==◌, length, ℤ}
use socket_dispatcher.Socket.{hello}
use socket_dispatcher.World.{Ref, Os, World, ok, descriptor_of}
use socket_dispatcher.SocketsList.{SocketsList, ErrorType}
use socket_dispatcher.SocketsList.Delete.{Distinct}
use socket_dispatcher.SocketsList.Full.{IsBounded}
use socket_dispatcher.Poller.{poll_sockets, max_sockets_to_poll}
use socket_dispatcher.Client.{process_client}
use socket_dispatcher.Client.Frame.{process_client-Steady, Steady-descriptor}
use socket_dispatcher.Client.Dialogue.{messages, start, Talked, process_client-Talked}
use socket_dispatcher.Client.Elsewhere.{Elsewhere, process_client-Elsewhere, poll_sockets-Elsewhere}

-- The worlds that a session from `w` leads to, with the value of its last turn. It goes on while its
-- turns return true. Between them the dispatcher polls its sockets, takes turns with other clients,
-- whose descriptors are different ones, and does other work.
pub data Session (os : Os) (r : Ref) (w : World) : Bool → World → Type 0 where
  opened : Session os r w true w
  turn :
      {w₁ w₂ : World} {keep : Bool}
      → Session os r w true w₁
      → process_client os r w₁ ≡ (keep, w₂)
      → Session os r w keep w₂
  other_turn :
      {w₁ w₂ : World} {keep : Bool} (q : Ref)
      → Session os r w true w₁
      → (q == r) ≡ false
      → descriptor_of w₁ q ≢ descriptor_of w₁ r
      → process_client os q w₁ ≡ (keep, w₂)
      → Session os r w true w₂
  polled :
      {w₁ w₂ : World} (input out out' : SocketsList) (e : ErrorType)
      → Session os r w true w₁
      → length input.sockets ≤ max_sockets_to_poll
      → Distinct input.sockets
      → IsBounded out
      → poll_sockets os input out w₁ ≡ ok (e, w₂, out')
      → Session os r w true w₂
  elsewhere : {w₁ w₂ : World} → Session os r w true w₁ → Elsewhere r w₁ w₂ → Session os r w true w₂

module _ (os : Os) (r : Ref) where
  turn-Talked :
      (fd : ℤ) (w : World)
      → descriptor_of w r ≡ fd
      → Talked fd r true w
      → (descriptor_of (process_client os r w).1 r ≡ fd)
        × Talked fd r (process_client os r w).0 (process_client os r w).1
  turn-Talked fd w f d = (
    Steady-descriptor r (process_client-Steady os r w) ∙ f,
    rw (← f) (process_client-Talked os r w (rw f d)),
  )

  Elsewhere-Talked :
      (fd : ℤ) (w₁ w₂ : World)
      → descriptor_of w₁ r ≡ fd
      → Elsewhere r w₁ w₂
      → Talked fd r true w₁
      → (descriptor_of w₂ r ≡ fd) × Talked fd r true w₂
  Elsewhere-Talked fd w₁ w₂ f e d =
      let m : messages fd w₂.trace ≡ messages fd w₁.trace = rw (← f) e.same_messages in
      (e.same_descriptor ∙ f, rw (e.same_status, m) d)

  session_lem :
      {w w' : World} {keep : Bool}
      → Session os r w keep w'
      → Talked (descriptor_of w r) r true w
      → (descriptor_of w' r ≡ descriptor_of w r) × Talked (descriptor_of w r) r keep w'
  session_lem opened d = (refl, d)
  session_lem {w = w} (turn {w₁} {w₂} {keep} s p) d =
      let before = session_lem s d in rw p at (turn-Talked (descriptor_of w r) w₁ before.0 before.1)
  session_lem {w = w} (other_turn {w₁} {w₂} {keep} q s other apart p) d =
      let before = session_lem s d in
      let away : Elsewhere r w₁ w₂ = rw p at (process_client-Elsewhere os q r w₁ other apart) in
      Elsewhere-Talked (descriptor_of w r) w₁ w₂ before.0 away before.1
  session_lem {w = w} (polled {w₁} {w₂} input out out' e s small once bounded p) d =
      let before = session_lem s d in
      let away = poll_sockets-Elsewhere os input out out' r e w₁ w₂ small once bounded p in
      Elsewhere-Talked (descriptor_of w r) w₁ w₂ before.0 away before.1
  session_lem {w = w} (elsewhere {w₁} {w₂} s e) d =
      let before = session_lem s d in Elsewhere-Talked (descriptor_of w r) w₁ w₂ before.0 e before.1

module _ (os : Os) (r : Ref) {w w' : World} {keep : Bool} (s : Session os r w keep w')
    (greeting_due : (w.cell r).client_status ≡ hello)
    (nothing_said : messages (descriptor_of w r) w.trace ≡ []) where
  -- All that is written to a client's descriptor, since it was last wrapped for TLS, is a dialogue at
  -- the end of a session that starts with the greeting due and nothing said since then, whatever the
  -- system answers: one greeting, then echoes, probes at any time; if the last turn dropped the
  -- client, at most the farewell follows. The turns of the session may be interleaved with polls of
  -- at most 1024 different sockets, with turns of clients that have other descriptors, and with any
  -- other work that leaves the client's descriptor and status alone and neither writes to its
  -- descriptor nor wraps it again.
  pub session-Talked : Talked (descriptor_of w r) r keep w'
  session-Talked = (session_lem os r s (rw (greeting_due, nothing_said) start)).1
