-- ===== src/Client/Elsewhere.antt =====
-- What the dispatcher does between two turns with a client leaves that client alone.
use mathlib.Core.Path.{subst}
use socket_dispatcher.Prelude.{
  ℕ, suc, ◌≤◌, ◌≡◌, refl, ap, ◌∙◌, ◌≢◌, inl, inr, true, false, List, [], ◌∷◌, arith, ◌==◌, ==_iff,
  ==_refl, Bool-cases, if-both, length, ℤ, ◌==ℤ◌, ==ℤ_false, Bytes,
}
use socket_dispatcher.Socket.{Socket, PollMask}
use socket_dispatcher.World.{Ref, Os, World, ok, modify, descriptor_of}
use socket_dispatcher.World.Quiet.{IsMinor}
use socket_dispatcher.SocketsList.{SocketsList, ErrorType}
use socket_dispatcher.SocketsList.Delete.{contains, Distinct}
use socket_dispatcher.SocketsList.Full.{IsBounded}
use socket_dispatcher.SocketUtils.{read, write_message, is_ssl_socket}
use socket_dispatcher.Poller.{poll_sockets, max_sockets_to_poll}
use socket_dispatcher.Poller.Masks.{Stored, bits_after}
use socket_dispatcher.Poller.Answer.{answer, poll_sockets-Polled}
use socket_dispatcher.Client.{process_client}
use socket_dispatcher.Client.Quiet.{process_client-kept}
use socket_dispatcher.Client.Frame.{
  process_client-Steady, other_kept, read-cell, write_message-cell,
}
use socket_dispatcher.Client.Dialogue.{messages, read-messages}

-- Work that leaves this client's descriptor and status alone, and neither writes to it nor wraps its
-- descriptor again.
pub record Elsewhere (r : Ref) (w w' : World) : Type 0 where
  pub same_descriptor : descriptor_of w' r ≡ descriptor_of w r
  pub same_status : (w'.cell r).client_status ≡ (w.cell r).client_status
  pub same_messages : messages (descriptor_of w r) w'.trace ≡ messages (descriptor_of w r) w.trace

-- What `q` hears, another descriptor does not.
abbrev Unheard : Ref → ℤ → ℤ → List Bytes → World → Type 0
Unheard q own fd ms w = (descriptor_of w q ≡ own) × (messages fd w.trace ≡ ms)

module _ (os : Os) (q : Ref) (own fd : ℤ) (ms : List Bytes) (apart : own ≢ fd) where
  read-Unheard :
      (size : ℕ) (w : World) → Unheard q own fd ms w → Unheard q own fd ms (read os q size w).1
  read-Unheard size w h = (
    ap (λ (cell : Ref → Socket). (cell q).descriptor) (read-cell os q w size) ∙ h.0,
    read-messages os q w fd size ∙ h.1,
  )

  write_message-Unheard :
      (m : Bytes) (w : World)
      → Unheard q own fd ms w
      → Unheard q own fd ms (write_message os q m w).1
  unfolding write_message
  write_message-Unheard m w h =
      let away : (descriptor_of w q ==ℤ fd) ≡ false = rw h.0 (==ℤ_false own fd apart) in
      (
        ap (λ (cell : Ref → Socket). (cell q).descriptor) (write_message-cell os q w m) ∙ h.0,
        if-both (λ (x : ℤ × World). messages fd x.1.trace ≡ ms) (is_ssl_socket (w.cell q).class)
            (rw away h.1) (rw away h.1),
      )

  modify-Unheard :
      (f : Socket → Socket) (w : World)
      → IsMinor f
      → Unheard q own fd ms w
      → Unheard q own fd ms (modify q f w)
  modify-Unheard f w m h =
      let (class, listens, same, protects, type) = m (w.cell q) in
      (rw (descriptor_of, ==_refl q) same ∙ h.0, h.1)

-- A turn with another client, whose descriptor is another one, is work elsewhere.
pub process_client-Elsewhere :
    (os : Os) (q r : Ref) (w : World)
    → (q == r) ≡ false
    → descriptor_of w q ≢ descriptor_of w r
    → Elsewhere r w (process_client os q w).1
process_client-Elsewhere os q r w other apart =
    let own = descriptor_of w q in
    let fd = descriptor_of w r in
    let ms = messages fd w.trace in
    let cell = other_kept (process_client-Steady os q w) r other in
    let unheard =
      process_client-kept (Unheard q own fd ms) os q (read-Unheard os q own fd ms apart)
        (write_message-Unheard os q own fd ms apart) (modify-Unheard os q own fd ms apart) w
        (refl, refl) in
    record {
      same_descriptor = ap (λ (s : Socket). s.descriptor) cell;
      same_status = ap (λ (s : Socket). s.client_status) cell;
      same_messages = unheard.1;
    }

-- The fields of an object that `pollSockets` leaves alone.
abbrev SameClient : Socket → Socket → Type 0
SameClient s s' = (s'.descriptor ≡ s.descriptor) × (s'.client_status ≡ s.client_status)

Stored-SameClient :
    (bits : ℕ → PollMask) (i : ℕ) (rs : List Ref) (w w' : World) (r : Ref)
    → Stored bits i rs w w'
    → contains r rs ≡ true
    → SameClient (w.cell r) (w'.cell r)
Stored-SameClient bits i [] w w' r h c = cc
Stored-SameClient bits i (x ∷ xs) w w' r h c = elim (Bool-cases (x == r)) [
  | inl same ↦
      let e : x ≡ r = (==_iff x r).0 same in
      rw (← e) (ap (λ (s : Socket). s.descriptor) h.0, ap (λ (s : Socket). s.client_status) h.0)
  | inr other ↦ Stored-SameClient bits (suc i) xs w w' r h.1 (ground arith)
]

-- A call of `pollSockets` is work elsewhere for every client.
pub poll_sockets-Elsewhere :
    (os : Os) (input out out' : SocketsList) (r : Ref) (e : ErrorType) (w w' : World)
    → length input.sockets ≤ max_sockets_to_poll
    → Distinct input.sockets
    → IsBounded out
    → poll_sockets os input out w ≡ ok (e, w', out')
    → Elsewhere r w w'
poll_sockets-Elsewhere os input out out' r e w w' small once bounded returned =
    let (v, done, trace, polled) = poll_sockets-Polled os input out w small once bounded in
    let same : v ≡ (e, w', out') = cc in
    let world : v.1 ≡ w' = ap (λ (x : ErrorType × World × SocketsList). x.1) same in
    let client : SameClient (w.cell r) (v.1.cell r) = elim (Bool-cases (contains r input.sockets)) [
      | inl member ↦
          Stored-SameClient (bits_after (answer os input w)) 0 input.sockets w v.1 r polled.2 member
      | inr other ↦
          let kept : v.1.cell r ≡ w.cell r = polled.3 r ∙ rw other in
          (ap (λ (s : Socket). s.descriptor) kept, ap (λ (s : Socket). s.client_status) kept)
    ] in
    subst (Elsewhere r w) world (record {
      same_descriptor = client.0;
      same_status = client.1;
      same_messages = ap (messages (descriptor_of w r)) trace;
    })
