-- ===== src/Client/Quiet.antt =====
-- A turn with a client opens and closes nothing.
use socket_dispatcher.Prelude.{
  ℕ, refl, Bool, if-both, pos, ◌==ℤ◌, is_positive, Bytes, codes, starts_with,
}
use socket_dispatcher.Socket.{
  Socket, ClientStatus, hello, bye, echo, silent, is_dropped, is_read_available, is_write_available,
  set_client_status, set_revents, pollout_only,
}
use socket_dispatcher.World.{Ref, ReadResult, Os, World, modify}
use socket_dispatcher.World.Quiet.{Quiet, IsMinor}
use socket_dispatcher.SocketUtils.{read, write_message}
use socket_dispatcher.SocketUtils.Quiet.{read-keeps, write_message-keeps}
use socket_dispatcher.Client.{
  hello_message, echo_message, bye_message, probe_message, handle_input, read_part, write_by_status,
  write_part, process_client,
}

-- `Q` is kept by what a turn does: reading from its client, writing to it, and changing its bits or
-- its status.
module _ (Q : World → Type 0) (os : Os) (r : Ref)
    (reads : (size : ℕ) (w : World) → Q w → Q (read os r size w).1)
    (writes : (m : Bytes) (w : World) → Q w → Q (write_message os r m w).1)
    (changes : (f : Socket → Socket) (w : World) → IsMinor f → Q w → Q (modify r f w)) where
  abbrev Turn : Bool × World → Type 0
  Turn x = Q x.1

  handle_input-keeps : (input : ReadResult) (w : World) → Q w → Q (handle_input os r input w).1
  unfolding handle_input
  handle_input-keeps input w h =
      let said =
        if-both Q (starts_with (codes "EXIT") input.buffer)
          (changes (set_client_status bye) w (λ s. (refl, refl, refl, refl, refl)) h) h in
      if-both Turn (input.ret ==ℤ pos 0) (writes probe_message w h) (
        if-both Turn (is_positive input.ret)
          (changes (set_revents pollout_only) _ (λ s. (refl, refl, refl, refl, refl)) said) h)

  read_part-keeps : (w : World) → Q w → Q (read_part os r w).1
  unfolding read_part
  read_part-keeps w h =
      if-both Turn (is_read_available (w.cell r))
        (handle_input-keeps (read os r 100 w).0 _ (reads 100 w h)) h

  write_by_status-keeps : (c : ClientStatus) (w : World) → Q w → Q (write_by_status os r c w).1
  unfolding write_by_status
  write_by_status-keeps hello w h =
      changes (set_client_status echo) _ (λ s. (refl, refl, refl, refl, refl))
        (writes hello_message w h)
  write_by_status-keeps echo w h = writes echo_message w h
  write_by_status-keeps bye w h = writes bye_message w h
  write_by_status-keeps silent w h = h

  write_part-keeps : (w : World) → Q w → Q (write_part os r w).1
  unfolding write_part
  write_part-keeps w h =
      if-both Turn (is_write_available (w.cell r))
        (write_by_status-keeps (w.cell r).client_status w h) h

  pub process_client-kept : (w : World) → Q w → Q (process_client os r w).1
  unfolding process_client
  process_client-kept w h =
      let k = read_part-keeps w h in
      if-both Turn (is_dropped (w.cell r)) h
        (if-both Turn (read_part os r w).0 (write_part-keeps _ k) k)

pub process_client-keeps :
    (Q : World → Type 0)
    → Quiet Q
    → (os : Os) (r : Ref) (w : World) → Q w
    → Q (process_client os r w).1
process_client-keeps Q q os r w h =
    process_client-kept Q os r (read-keeps Q q os r) (write_message-keeps Q q os r)
      (λ f w'. q.changes f r w') w h
