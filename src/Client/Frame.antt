-- ===== src/Client/Frame.antt =====
-- What one turn with a client leaves alone.
use socket_dispatcher.Prelude.{
  ℕ, ◌≡◌, refl, ap, ◌∙◌, inl, inr, false, arith, ◌==◌, if◌then◌else◌, ==_refl, if-else, Bool-cases,
  pos, ◌==ℤ◌, is_positive, Bytes, codes, starts_with,
}
use socket_dispatcher.Socket.{
  Socket, ClientStatus, hello, bye, echo, silent, no_events, is_dropped, is_read_available,
  is_write_available, set_client_status, set_revents, pollout_only,
}
use socket_dispatcher.World.{Ref, ReadResult, Os, World, modify, descriptor_of}
use socket_dispatcher.SocketUtils.{read, write_message, is_ssl_socket}
use socket_dispatcher.Client.{
  hello_message, echo_message, bye_message, probe_message, handle_input, read_part, write_by_status,
  write_part, process_client,
}

-- A socket but for the bits that it shows and the status of its client.
abbrev pub identity : Socket → Socket
identity s = record s { revents = no_events; client_status = silent }

-- No object is made, none but `r` changes, and `r` changes in these two fields at most.
pub record Steady (r : Ref) (w w' : World) : Type 0 where
  pub next_kept : w'.next ≡ w.next
  pub others_kept : (q : Ref) → w'.cell q ≡ (if r == q then w'.cell q else w.cell q)
  pub identity_kept : identity (w'.cell r) ≡ identity (w.cell r)

module _ {r : Ref} {w w' : World} (s : Steady r w w') (q : Ref) (other : (r == q) ≡ false) where
  pub other_kept : w'.cell q ≡ w.cell q
  other_kept = s.others_kept q ∙ rw other

module _ (r : Ref) where
  pub Steady-same : {w w' : World} → w'.next ≡ w.next → w'.cell ≡ w.cell → Steady r w w'
  Steady-same n c = record {
    next_kept = n;
    others_kept = λ q. if-else (r == q) _ _ (λ h. ap (λ (cell : Ref → Socket). cell q) c);
    identity_kept = ap (λ (cell : Ref → Socket). identity (cell r)) c;
  }

  pub Steady-trans : {w w' w₂ : World} → Steady r w w' → Steady r w' w₂ → Steady r w w₂
  Steady-trans s t = record {
    next_kept = t.next_kept ∙ s.next_kept;
    others_kept = λ q. if-else (r == q) _ _ (λ h. other_kept t q h ∙ other_kept s q h);
    identity_kept = t.identity_kept ∙ s.identity_kept;
  }

  pub Steady-modify :
      (f : Socket → Socket) (w : World)
      → identity (f (w.cell r)) ≡ identity (w.cell r)
      → Steady r w (modify r f w)
  Steady-modify f w h = record {
    next_kept = refl;
    others_kept = λ q. if-else (r == q) _ _ (λ e. rw e);
    identity_kept = rw (==_refl r) h;
  }

  pub Steady-descriptor : {w w' : World} → Steady r w w' → descriptor_of w' r ≡ descriptor_of w r
  Steady-descriptor s = ap (λ (x : Socket). x.descriptor) s.identity_kept

module _ (os : Os) (r : Ref) (w : World) where
  pub write_message-cell : (m : Bytes) → (write_message os r m w).1.cell ≡ w.cell
  unfolding write_message
  write_message-cell m = elim (Bool-cases (is_ssl_socket (w.cell r).class)) [
    | inl e ↦ rw e
    | inr e ↦ rw e
  ]

  pub write_message-Steady : (m : Bytes) → Steady r w (write_message os r m w).1
  unfolding write_message
  write_message-Steady m = Steady-same r (ground arith) (write_message-cell m)

  pub read-cell : (size : ℕ) → (read os r size w).1.cell ≡ w.cell
  unfolding read
  read-cell size = elim (Bool-cases (is_ssl_socket (w.cell r).class)) [
    | inl e ↦ rw e
    | inr e ↦ rw e
  ]

  read-Steady : (size : ℕ) → Steady r w (read os r size w).1
  unfolding read
  read-Steady size = Steady-same r (ground arith) (read-cell size)

  handle_input-Steady : (input : ReadResult) → Steady r w (handle_input os r input w).1
  unfolding handle_input
  handle_input-Steady input = elim (Bool-cases (input.ret ==ℤ pos 0)) [
    | inl zero_bytes ↦ rw (zero_bytes, handle_input) (write_message-Steady probe_message)
    | inr some_bytes ↦ elim (Bool-cases (is_positive input.ret)) [
      | inl data_read ↦ elim (Bool-cases (starts_with (codes "EXIT") input.buffer)) [
        | inl exit ↦
            rw (some_bytes, data_read, exit, handle_input)
              (Steady-trans r (Steady-modify r (set_client_status bye) w refl)
                (Steady-modify r (set_revents pollout_only) _ refl))
        | inr other ↦
            rw (some_bytes, data_read, other, handle_input)
              (Steady-modify r (set_revents pollout_only) w refl)
      ]
      | inr failed ↦ rw (some_bytes, failed, handle_input) (Steady-same r refl refl)
    ]
  ]

module _ (os : Os) (r : Ref) where
  pub read_part-Steady : (w : World) → Steady r w (read_part os r w).1
  unfolding read_part
  read_part-Steady w = elim (Bool-cases (is_read_available (w.cell r))) [
    | inl ready ↦
        rw (ready, read_part)
          (Steady-trans r (read-Steady os r w 100) (handle_input-Steady os r (read os r 100 w).1 _))
    | inr quiet ↦ rw (quiet, read_part) (Steady-same r refl refl)
  ]

  write_by_status-Steady : (s : ClientStatus) (w : World) → Steady r w (write_by_status os r s w).1
  unfolding write_by_status
  write_by_status-Steady hello w =
      Steady-trans r (write_message-Steady os r w hello_message)
        (Steady-modify r (set_client_status echo) _ refl)
  write_by_status-Steady echo w = write_message-Steady os r w echo_message
  write_by_status-Steady bye w = write_message-Steady os r w bye_message
  write_by_status-Steady silent w = Steady-same r refl refl

  write_part-Steady : (w : World) → Steady r w (write_part os r w).1
  unfolding write_part
  write_part-Steady w = elim (Bool-cases (is_write_available (w.cell r))) [
    | inl ready ↦ rw (ready, write_part) (write_by_status-Steady (w.cell r).client_status w)
    | inr quiet ↦ rw (quiet, write_part) (Steady-same r refl refl)
  ]

  -- A turn with a client makes no object and changes no other: of the client's own socket it
  -- changes at most the bits that it shows and the client's status. So the class, the descriptor,
  -- the requested bits, the type and the protection of the descriptor stay.
  pub process_client-Steady : (w : World) → Steady r w (process_client os r w).1
  unfolding process_client
  process_client-Steady w = elim (Bool-cases (is_dropped (w.cell r))) [
    | inl gone ↦ rw (gone, process_client) (Steady-same r refl refl)
    | inr alive ↦ elim (Bool-cases (read_part os r w).0) [
      | inl go_on ↦
          rw (alive, go_on, process_client)
            (Steady-trans r (read_part-Steady w) (write_part-Steady (read_part os r w).1))
      | inr stop ↦ rw (alive, stop, process_client) (read_part-Steady w)
    ]
  ]
