-- ===== src/Client/Dialogue.antt =====
-- The words that a client hears over a whole session, whatever the system answers.
use socket_dispatcher.Prelude.{
  ℕ, ◌≡◌, refl, ap, ◌∙◌, inl, inr, Bool, true, false, Option, none, some, List, [], ◌∷◌,
  if◌then◌else◌, ==_refl, Bool-cases, ℤ, pos, ◌==ℤ◌, is_positive, ==ℤ_refl, Bytes, codes,
  starts_with,
}
use socket_dispatcher.Socket.{
  Socket, ClientStatus, hello, bye, echo, silent, is_dropped, is_read_available, is_write_available,
}
use socket_dispatcher.World.{
  Ref, ReadResult, Os, World, Call, Trace, write, bio_write, bio_new_socket, descriptor_of,
}
use socket_dispatcher.SocketUtils.{read, write_message, is_ssl_socket}
use socket_dispatcher.Client.Frame.{
  read-cell, write_message-cell, Steady-descriptor, read_part-Steady,
}
use socket_dispatcher.Client.{
  hello_message, echo_message, bye_message, probe_message, handle_input, read_part, write_by_status,
  write_part, process_client,
}

-- The bytes that one call writes to a descriptor.
abbrev pub said : ℤ → Call → Option Bytes
said fd (write to m) = if to ==ℤ fd then some m else none
said fd (bio_write to m) = if to ==ℤ fd then some m else none
said fd _ = none

abbrev pub prepend : Option Bytes → List Bytes → List Bytes
prepend none ms = ms
prepend (some m) ms = m ∷ ms

-- A call with which a new connection on the descriptor starts: it is wrapped for TLS.
abbrev starts : ℤ → Call → Bool
starts fd (bio_new_socket to) = to ==ℤ fd
starts fd _ = false

-- All messages written to a descriptor since it was last wrapped for TLS, the newest first.
abbrev pub messages : ℤ → Trace → List Bytes
messages fd [] = []
messages fd (c ∷ cs) =
    let older = messages fd cs in if starts fd c then [] else prepend (said fd c) older

-- The dialogue, as what has been said by the time that the client has a status: one greeting, then
-- echoes, with a probe at any time; a client that takes its leave hears no more of these.
pub data Dialogue : ClientStatus → List Bytes → Type 0 where
  start : Dialogue hello []
  probed : {s : ClientStatus} {ms : List Bytes} → Dialogue s ms → Dialogue s (probe_message ∷ ms)
  greeted : {ms : List Bytes} → Dialogue hello ms → Dialogue echo (hello_message ∷ ms)
  echoed : {ms : List Bytes} → Dialogue echo ms → Dialogue echo (echo_message ∷ ms)
  leaves : {s : ClientStatus} {ms : List Bytes} → Dialogue s ms → Dialogue bye ms

-- A dialogue that is over: broken off, or closed by the farewell.
pub data Ended : List Bytes → Type 0 where
  broken_off : {s : ClientStatus} {ms : List Bytes} → Dialogue s ms → Ended ms
  said_bye : {ms : List Bytes} → Dialogue bye ms → Ended (bye_message ∷ ms)

-- What a turn that keeps the client leaves behind, and one that drops it.
abbrev pub Talked : ℤ → Ref → Bool → World → Type 0
Talked fd r true w = Dialogue (w.cell r).client_status (messages fd w.trace)
Talked fd r false w = Ended (messages fd w.trace)

module _ (os : Os) (r : Ref) (w : World) where
  pub write_message-messages :
      (m : Bytes)
      → messages (descriptor_of w r) (write_message os r m w).1.trace
        ≡ m ∷ messages (descriptor_of w r) w.trace
  unfolding write_message
  write_message-messages m = elim (Bool-cases (is_ssl_socket (w.cell r).class)) [
    | inl e ↦ rw (e, ==ℤ_refl (descriptor_of w r))
    | inr e ↦ rw (e, ==ℤ_refl (descriptor_of w r))
  ]

  pub read-messages :
      (fd : ℤ) (size : ℕ) → messages fd (read os r size w).1.trace ≡ messages fd w.trace
  unfolding read
  read-messages fd size = elim (Bool-cases (is_ssl_socket (w.cell r).class)) [
    | inl e ↦ rw e
    | inr e ↦ rw e
  ]

abbrev status_in : Ref → (Ref → Socket) → ClientStatus
status_in r cell = (cell r).client_status

-- A dialogue at hand serves a turn that keeps the client and one that breaks off.
talks :
    (fd : ℤ) (r : Ref) (keep : Bool) (w : World) {s : ClientStatus} {ms : List Bytes}
    → (w.cell r).client_status ≡ s
    → messages fd w.trace ≡ ms
    → Dialogue s ms
    → Talked fd r keep w
talks fd r true w st e d = rw (st, e) d
talks fd r false w st e d = rw e (broken_off d)

module _ (os : Os) (r : Ref) where
  handle_input-Talked :
      (input : ReadResult) (w : World)
      → Talked (descriptor_of w r) r true w
      → Talked (descriptor_of w r) r (handle_input os r input w).0 (handle_input os r input w).1
  unfolding handle_input
  handle_input-Talked input w d = elim (Bool-cases (input.ret ==ℤ pos 0)) [
    | inl zero_bytes ↦
        rw (zero_bytes, handle_input)
          (talks _ r _ _ (ap (status_in r) (write_message-cell os r w probe_message))
            (write_message-messages os r w probe_message) (probed d))
    | inr some_bytes ↦ elim (Bool-cases (is_positive input.ret)) [
      | inl data_read ↦ elim (Bool-cases (starts_with (codes "EXIT") input.buffer)) [
        | inl exit ↦ rw (some_bytes, data_read, exit, handle_input) (rw (==_refl r) (leaves d))
        | inr other ↦ rw (some_bytes, data_read, other, handle_input) (rw (==_refl r) d)
      ]
      | inr failed ↦ rw (some_bytes, failed, handle_input) (broken_off d)
    ]
  ]

  read_part-Talked :
      (w : World)
      → Talked (descriptor_of w r) r true w
      → Talked (descriptor_of w r) r (read_part os r w).0 (read_part os r w).1
  unfolding read_part
  read_part-Talked w d = elim (Bool-cases (is_read_available (w.cell r))) [
    | inl ready ↦
        rw (ready, read_part)
          (let w' = (read os r 100 w).1 in
            let same = read-cell os r w 100 in
            let fd : descriptor_of w' r ≡ descriptor_of w r =
              ap (λ (cell : Ref → Socket). (cell r).descriptor) same in
            rw (← fd) (
              handle_input-Talked (read os r 100 w).0 w'
                (talks _ r true w' (ap (status_in r) same) (rw fd (read-messages os r w _ 100)) d)))
    | inr quiet ↦ rw (quiet, read_part) d
  ]

  write_by_status-Talked :
      (s : ClientStatus) (w : World)
      → (w.cell r).client_status ≡ s
      → Talked (descriptor_of w r) r true w
      → Talked (descriptor_of w r) r (write_by_status os r s w).0 (write_by_status os r s w).1
  unfolding write_by_status
  write_by_status-Talked hello w e d =
      talks _ r _ _ (rw (==_refl r)) (write_message-messages os r w hello_message)
        (greeted (rw e at d))
  write_by_status-Talked echo w e d =
      talks _ r _ _ (ap (status_in r) (write_message-cell os r w echo_message) ∙ e)
        (write_message-messages os r w echo_message) (echoed (rw e at d))
  write_by_status-Talked bye w e d =
      rw (write_message-messages os r w bye_message) (said_bye (rw e at d))
  write_by_status-Talked silent w e d = d

  write_part-Talked :
      (w : World)
      → Talked (descriptor_of w r) r true w
      → Talked (descriptor_of w r) r (write_part os r w).0 (write_part os r w).1
  unfolding write_part
  write_part-Talked w d = elim (Bool-cases (is_write_available (w.cell r))) [
    | inl ready ↦ rw (ready, write_part) (write_by_status-Talked _ w refl d)
    | inr quiet ↦ rw (quiet, write_part) d
  ]

  pub process_client-Talked :
      (w : World)
      → Talked (descriptor_of w r) r true w
      → Talked (descriptor_of w r) r (process_client os r w).0 (process_client os r w).1
  unfolding process_client
  process_client-Talked w d = elim (Bool-cases (is_dropped (w.cell r))) [
    | inl gone ↦ rw (gone, process_client) (broken_off d)
    | inr alive ↦ elim (Bool-cases (read_part os r w).0) [
      | inl go_on ↦
          let fd = Steady-descriptor r (read_part-Steady os r w) in
          rw (alive, go_on, process_client)
            (rw (← fd)
              (write_part-Talked (read_part os r w).1 (rw fd (rw go_on at (read_part-Talked w d)))))
      | inr stop ↦ rw (alive, stop, process_client) (rw stop at (read_part-Talked w d))
    ]
  ]
