-- ===== src/Passing/Ownership.antt =====
-- Who answers for a descriptor that is received, until its socket is wrapped for TLS.
use mathlib.Core.Path.{subst}
use socket_dispatcher.Prelude.{
  ℕ, zero, suc, ◌<◌, ◌≡◌, refl, sym, ap, ◌⊎◌, inl, inr, Bool, true, false, Option, none, some, ◌∷◌,
  arith, ◌==◌, ==_refl, if-both, Bool-cases, ℤ, pos, negsuc, ◌==ℤ◌, is_negative, is_positive,
  minus_one, magnitude,
}
use socket_dispatcher.Socket.{Socket, plain, ssl, ssl_socket, fresh_socket, new_socket, protect}
use socket_dispatcher.World.{
  Ref, Trace, MessageResult, Os, World, recvmsg, bio_new_socket, call, alloc, modify, descriptor_of,
  Result, ok, halt, ◌>>=◌,
}
use socket_dispatcher.World.Ledger.{BringsNew, brought, announced}
use socket_dispatcher.World.Outcomes.{
  Outcome, Outcome-return, Outcome-halt, Outcome-bind, Outcome-option, AnyHalt,
}
use socket_dispatcher.World.Ownership.{Loss, Owns, Owns-Quiet, unchanged-Owns}
use socket_dispatcher.World.Ownership.Steps.{
  Pending, enter-Pending, Pending-lost, alloc-Owns, joined, next-is_new,
}
use socket_dispatcher.World.Ownership.Others.{alloc_other-Pending, modify_other-Owns}
use socket_dispatcher.SocketUtils.{wrap_ssl, make_ssl_socket, destroy, class_destructor}
use socket_dispatcher.Passing.{adopt, decide, receive_socket, ensure_control, scan}
use socket_dispatcher.Passing.Quiet.{ensure_control-keeps}
use socket_dispatcher.Passing.Transfer.{tcp_socket, adopted, adopt-adopted}

module _ (os : Os) (live : Ref → Bool) (Lost : Loss)
    (zero_lost : (t : Trace) (fd : ℤ)
      → brought (os.message_received t fd) ≡ pos 0
      → Lost.lost (recvmsg fd ∷ t) (pos 0)) where
  -- A plain socket that nothing holds has the one open descriptor that no object answers for.
  pub record Spare (s : Ref) (w : World) : Type 0 where
    pub unowned : live s ≡ false
    pub made : s < w.next
    pub is_plain : (w.cell s).class ≡ plain
    pub pending : Pending os live Lost (descriptor_of w s) w

  abbrev pub Received : Option Ref × World → Type 0
  Received (none, w) = Owns os live Lost w
  Received (some s, w) = Spare s w

  abbrev Decided : Option (Option Ref × World) → World → Type 0
  Decided none w = Owns os live Lost w
  Decided (some x) w = Received x

  -- What a message has brought waits for an object, and will not get one if it is 0.
  abbrev Arrived : ℤ → World → Type 0
  Arrived fd w =
      ((is_negative fd ≡ true) × Owns os live Lost w)
      ⊎ ((is_negative fd ≡ false)
          × Pending os live Lost fd w
          × (fd ≡ pos 0 → Lost.lost w.trace (pos 0)))

  adopted-Received : (fd : ℤ) (w : World) → Arrived fd w → Received (adopted fd w)
  adopted-Received (negsuc n) w (inl h) = h.1
  adopted-Received (negsuc n) w (inr h) = cc
  adopted-Received (pos n) w (inl h) = cc
  adopted-Received (pos zero) w (inr h) = Pending-lost os live Lost (pos 0) w (h.2 refl) h.1
  adopted-Received (pos (suc n)) w (inr h) =
      let fd = pos (suc n) in
      let s = tcp_socket fd in
      let w' = (alloc s w).1 in
      let new : w'.cell w.next ≡ s = rw (==_refl w.next) refl in
      let same : fd ≡ descriptor_of w' w.next = sym (ap (λ (x : Socket). x.descriptor) new) in
      let positive : is_positive fd ≡ true = ground arith in
      rw positive (record {
        unowned = next-is_new os live _ w h.1.others;
        made = omega arith;
        is_plain = ap (λ (x : Socket). x.class) new;
        pending =
            subst (λ (k : ℤ). Pending os live Lost k w') same
              (alloc_other-Pending os live Lost fd s w h.1);
      })

  scanned-Decided :
      (found : Result (Option ℤ)) (w : World)
      → Arrived (announced found) w
      → Outcome AnyHalt
          (λ (x : Option (Option Ref × World)). Decided x w)
          (found >>= λ o. elim o [ none ↦ ok none | some fd ↦ adopt fd w >>= λ r. ok (some r) ])
  scanned-Decided (halt e) w h =
      Outcome-halt AnyHalt (λ (x : Option (Option Ref × World)). Decided x w) tt
  scanned-Decided (ok none) w (inl h) =
      Outcome-return AnyHalt (λ (x : Option (Option Ref × World)). Decided x w) h.1
  scanned-Decided (ok none) w (inr h) = cc
  scanned-Decided (ok (some fd)) w h = rw (adopt-adopted fd w) (
      Outcome-return AnyHalt (λ (x : Option (Option Ref × World)). Decided x w)
        (adopted-Received fd w h))

  nothing_arrived : (w : World) → Arrived minus_one w → Owns os live Lost w
  nothing_arrived w (inl h) = h.1
  nothing_arrived w (inr h) = cc

  decide-Decided :
      (m : MessageResult) (w : World)
      → Arrived (brought m) w
      → Outcome AnyHalt (λ (x : Option (Option Ref × World)). Decided x w) (decide m w)
  unfolding decide
  decide-Decided m w h =
      let D = λ (x : Option (Option Ref × World)). Decided x w in
      elim (Bool-cases (is_negative m.ret)) [
        | inl failed ↦ rw failed (Outcome-return AnyHalt D (nothing_arrived w (rw failed at h)))
        | inr got ↦ elim (Bool-cases (m.ret ==ℤ pos 0)) [
          | inl closed ↦
              rw (got, closed)
                (Outcome-return AnyHalt D (nothing_arrived w (rw (got, closed) at h)))
          | inr some_bytes ↦
              rw (got, some_bytes)
                (scanned-Decided (scan m.control 0 (magnitude m.ret) m.buffer none) w
                  (rw (got, some_bytes) at h))
        ]
      ]

  module _ (fresh : BringsNew os) where
    recvmsg-Arrived :
        (fd : ℤ) (w : World)
        → Owns os live Lost w
        → Arrived (brought (os.message_received w.trace fd)) (call (recvmsg fd) w)
    recvmsg-Arrived fd w h =
        let b = brought (os.message_received w.trace fd) in
        elim (Bool-cases (is_negative b)) [
          | inl nothing ↦
              inl (
                nothing,
                unchanged-Owns os live Lost (recvmsg fd) w (rw nothing refl) (tt, h.tidy) h,
              )
          | inr new ↦ inr (
            new,
            enter-Pending os live Lost b (recvmsg fd) w new refl (tt, h.tidy) (fresh w.trace fd) h,
            zero_lost w.trace fd,
          )
        ]

    pub receive_socket-Received :
        (fuel : ℕ) (r : Ref) (w : World)
        → Owns os live Lost w
        → Outcome AnyHalt Received (receive_socket os fuel r w)
    unfolding receive_socket
    receive_socket-Received zero r w h = Outcome-halt AnyHalt Received tt
    receive_socket-Received (suc fuel) r w h =
        let w' = (ensure_control os w).1 in
        let fd = descriptor_of w' r in
        let w₁ = call (recvmsg fd) w' in
        let k = ensure_control-keeps (Owns os live Lost) (Owns-Quiet os live Lost) os w h in
        if-both (Outcome AnyHalt Received) (ensure_control os w).0
          (Outcome-bind AnyHalt (λ (x : Option (Option Ref × World)). Decided x w₁) Received _ _
            (decide-Decided (os.message_received w'.trace fd) w₁ (recvmsg-Arrived fd w' k))
            λ outcome d.
              Outcome-option AnyHalt (λ (x : Option (Option Ref × World)). Decided x w₁) Received
                outcome _ _ d (λ d'. receive_socket-Received fuel r w₁ d')
                λ result d'. Outcome-return AnyHalt Received d')
          (Outcome-return AnyHalt Received k)

  destroy-protected :
      (r : Ref) (w : World)
      → (w.cell r).class ≡ plain
      → (w.cell r).protect_descriptor ≡ true
      → destroy r w ≡ w
  unfolding destroy class_destructor
  destroy-protected r w c p = rw (p, c) refl

  -- The socket of class SslSocket answers for the descriptor, once the plain one is gone.
  abbrev pub Wrapped : Ref → Ref × World → Type 0
  Wrapped r (q, w) = (live q ≡ false) × Owns os (joined q live) Lost (destroy r w)

  pub wrap_ssl-Wrapped :
      (context : Bool) (r : Ref) (w : World)
      → Spare r w
      → Outcome AnyHalt (Wrapped r) (wrap_ssl context r w)
  unfolding wrap_ssl make_ssl_socket new_socket
  wrap_ssl-Wrapped false r w h = elim (Bool-cases (descriptor_of w r ==ℤ minus_one)) [
    | inl nothing ↦ rw (nothing, wrap_ssl, make_ssl_socket) (Outcome-halt AnyHalt (Wrapped r) tt)
    | inr real ↦ rw (real, wrap_ssl, make_ssl_socket) (Outcome-halt AnyHalt (Wrapped r) tt)
  ]
  wrap_ssl-Wrapped true r w h =
      let fd = descriptor_of w r in
      let q = w.next in
      let s = fresh_socket ssl_socket fd ssl false in
      let w₁ = (alloc s w).1 in
      let w₂ = call (bio_new_socket fd) w₁ in
      let w₃ = modify r protect w₂ in
      let live' = joined q live in
      let apart : (q == r) ≡ false = let k = h.made in ground arith in
      let out : live' r ≡ false = rw (apart, h.unowned) refl in
      let k₁ : Owns os live' Lost w₁ = alloc-Owns os live Lost s w refl h.pending in
      let k₂ = (Owns-Quiet os live' Lost).calls (bio_new_socket fd) w₁ refl k₁ in
      let k₃ : Owns os live' Lost w₃ = modify_other-Owns os live' Lost r protect w₂ out k₂ in
      let gone : destroy r w₃ ≡ w₃ =
        destroy-protected r w₃ (rw (==_refl r, apart) h.is_plain) (rw (==_refl r) refl) in
      elim (Bool-cases (fd ==ℤ minus_one)) [
        | inl nothing ↦
            rw (nothing, wrap_ssl, make_ssl_socket) (Outcome-halt AnyHalt (Wrapped r) tt)
        | inr real ↦
            rw (real, wrap_ssl, make_ssl_socket)
              (Outcome-return AnyHalt (Wrapped r) (
                next-is_new os live _ w h.pending.others,
                subst (Owns os live' Lost) (sym gone) k₃,
              ))
      ]
