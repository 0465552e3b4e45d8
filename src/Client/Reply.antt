-- ===== src/Client/Reply.antt =====
-- The answer to what a client sends.
use socket_dispatcher.Prelude.{
  ◌≡◌, refl, ap, ◌∙◌, Bool, true, false, ◌&&◌, Option, none, some, arith, if◌then◌else◌, ==_refl, ℤ,
  pos, ◌==ℤ◌, is_positive, Bytes, codes, starts_with,
}
use socket_dispatcher.Socket.{
  Socket, ClientStatus, hello, bye, echo, silent, is_dropped, is_read_available, is_write_available,
  set_client_status, set_revents, pollout_only,
}
use socket_dispatcher.World.{Ref, ReadResult, Os, World, modify, descriptor_of}
use socket_dispatcher.SocketUtils.{read}
use socket_dispatcher.Client.Frame.{read-cell, write_message-cell}
use socket_dispatcher.Client.Dialogue.{messages, prepend, write_message-messages, read-messages}
use socket_dispatcher.Client.{
  hello_message, echo_message, bye_message, handle_input, read_part, write_by_status, write_part,
  process_client,
}

-- The status in which the answer is given: bytes that begin with "EXIT" are a leave.
abbrev pub status_on : Bytes → ClientStatus → ClientStatus
status_on buffer s = if starts_with (codes "EXIT") buffer then bye else s

-- The answer in each status, if there is one.
abbrev pub answer_in : ClientStatus → Option Bytes
answer_in hello = some hello_message
answer_in echo = some echo_message
answer_in bye = some bye_message
answer_in silent = none

abbrev pub is_bye : ClientStatus → Bool
is_bye bye = true
is_bye _ = false

-- The status after the answer.
abbrev pub status_after : ClientStatus → ClientStatus
status_after hello = echo
status_after s = s

-- What a turn has done that found the client's bytes in `buffer`.
abbrev pub Replied : Ref → Bytes → World → Bool × World → Type 0
Replied r buffer w (keep, w') =
    let s = status_on buffer (w.cell r).client_status in
    (messages (descriptor_of w r) w'.trace
      ≡ prepend (answer_in s) (messages (descriptor_of w r) w.trace))
    × ((w'.cell r).client_status ≡ status_after s)
    × ((is_bye s && keep) ≡ false)

module _ (os : Os) (r : Ref) where
  write_by_status-Replies :
      (s : ClientStatus) (fd : ℤ) (w : World)
      → descriptor_of w r ≡ fd
      → (w.cell r).client_status ≡ s
      → (messages fd (write_by_status os r s w).1.trace
          ≡ prepend (answer_in s) (messages fd w.trace))
        × (((write_by_status os r s w).1.cell r).client_status ≡ status_after s)
        × ((is_bye s && (write_by_status os r s w).0) ≡ false)
  unfolding write_by_status
  write_by_status-Replies hello fd w f e =
      (rw (← f) (write_message-messages os r w hello_message), rw (==_refl r), refl)
  write_by_status-Replies echo fd w f e = (
    rw (← f) (write_message-messages os r w echo_message),
    ap (λ (cell : Ref → Socket). (cell r).client_status) (write_message-cell os r w echo_message)
        ∙ e,
    refl,
  )
  write_by_status-Replies bye fd w f e = (
    rw (← f) (write_message-messages os r w bye_message),
    ap (λ (cell : Ref → Socket). (cell r).client_status) (write_message-cell os r w bye_message)
        ∙ e,
    refl,
  )
  write_by_status-Replies silent fd w f e = (refl, e, refl)

  -- The world as the data leave it for the write part.
  abbrev taken_in : Bytes → World → World
  taken_in buffer w =
      modify r (set_revents pollout_only)
        (if starts_with (codes "EXIT") buffer then modify r (set_client_status bye) w else w)

  handle_input-data :
      (input : ReadResult) (w : World)
      → is_positive input.ret ≡ true
      → handle_input os r input w ≡ (true, taken_in input.buffer w)
  unfolding handle_input
  handle_input-data input w h =
      let nonzero : (input.ret ==ℤ pos 0) ≡ false = ground arith in rw (nonzero, h, handle_input)

  taken_in-facts :
      (buffer : Bytes) (w : World)
      → (((taken_in buffer w).cell r).client_status ≡ status_on buffer (w.cell r).client_status)
        × (descriptor_of (taken_in buffer w) r ≡ descriptor_of w r)
        × ((taken_in buffer w).trace ≡ w.trace)
        × (is_write_available ((taken_in buffer w).cell r) ≡ true)
  taken_in-facts buffer w = ground (arith, ==_refl r)

  process_client-turn :
      (w : World)
      → is_dropped (w.cell r) ≡ false
      → is_read_available (w.cell r) ≡ true
      → is_positive (read os r 100 w).0.ret ≡ true
      → let buffer = (read os r 100 w).0.buffer in
        process_client os r w
        ≡ write_by_status os r
            (status_on buffer (w.cell r).client_status)
            (taken_in buffer (read os r 100 w).1)
  unfolding process_client read_part write_part
  process_client-turn w alive ready some_bytes =
      let input = (read os r 100 w).0 in
      let w₁ = (read os r 100 w).1 in
      let facts = taken_in-facts input.buffer w₁ in
      let same : (w₁.cell r).client_status ≡ (w.cell r).client_status =
        ap (λ (cell : Ref → Socket). (cell r).client_status) (read-cell os r w 100) in
      rw (alive, process_client, ready, read_part)
        (rw (handle_input-data input w₁ some_bytes) (rw (facts.3, write_part) (rw (facts.0, same))))

  -- A turn that finds its client neither dropped nor silent about bytes to read, and reads some,
  -- answers in the same turn, whatever bits the poll showed for writing: exactly one message, the
  -- one for the client's status, or the farewell if the bytes begin with "EXIT"; none in a status
  -- without a message. The status moves on accordingly, and after the farewell the client is dropped.
  pub process_client-Replied :
      (w : World)
      → is_dropped (w.cell r) ≡ false
      → is_read_available (w.cell r) ≡ true
      → is_positive (read os r 100 w).0.ret ≡ true
      → Replied r (read os r 100 w).0.buffer w (process_client os r w)
  process_client-Replied w alive ready some_bytes =
      let input = (read os r 100 w).0 in
      let w₁ = (read os r 100 w).1 in
      let w₂ = taken_in input.buffer w₁ in
      let facts = taken_in-facts input.buffer w₁ in
      let same = read-cell os r w 100 in
      let fd : descriptor_of w₂ r ≡ descriptor_of w r =
        facts.1 ∙ ap (λ (cell : Ref → Socket). (cell r).descriptor) same in
      let st : (w₂.cell r).client_status ≡ status_on input.buffer (w.cell r).client_status =
        facts.0
        ∙ ap (λ (cell : Ref → Socket). status_on input.buffer (cell r).client_status) same in
      let heard : messages (descriptor_of w r) w₂.trace ≡ messages (descriptor_of w r) w.trace =
        ap (messages (descriptor_of w r)) facts.2 ∙ read-messages os r w (descriptor_of w r) 100 in
      rw (process_client-turn w alive ready some_bytes)
        (rw heard at (write_by_status-Replies _ (descriptor_of w r) w₂ fd st))
