-- ===== src/Passing/Adoption.antt =====
-- The ways in which `createSocket` of the received sockets ends, and the sockets that it returns.
use socket_dispatcher.Prelude.{
  ℕ, zero, suc, ◌-◌, ◌≡◌, refl, ap, ◌∙◌, inl, inr, Bool, true, false, Option, none, some, [], ◌∷◌,
  ltb, ◌==◌, ==_refl, if-both, elim-both, Bool-cases, ℤ, pos, negsuc, ◌==ℤ◌, is_negative,
  is_positive, minus_one, magnitude, Bytes,
}
use socket_dispatcher.World.{
  Ref, MessageResult, Os, World, buffer_overrun, out_of_fuel, descriptor_of, alloc,
}
use socket_dispatcher.World.Outcomes.{
  Outcome, NoAssertion, Outcome-return, Outcome-halt, Outcome-bind, Outcome-option,
}
use socket_dispatcher.SocketUtils.{make_ssl_socket, wrap_ssl}
use socket_dispatcher.Socket.{Socket, new_socket}
use socket_dispatcher.Passing.{next_descriptor, scan, adopt, decide, receive_socket, ensure_control}
use socket_dispatcher.Passing.Transfer.{tcp_socket, adopted, adopt-adopted}

pub overrun-NoAssertion : NoAssertion buffer_overrun
overrun-NoAssertion e = cc

pub fuel-NoAssertion : NoAssertion out_of_fuel
fuel-NoAssertion e = cc

-- A result that is no socket, or a socket with a positive descriptor.
abbrev pub Received : Option Ref × World → Type 0
Received (none, w) = Unit
Received (some r, w) = is_positive (descriptor_of w r) ≡ true

abbrev Decided : Option (Option Ref × World) → Type 0
Decided none = Unit
Decided (some x) = Received x

adopted-Received : (fd : ℤ) (w : World) → Received (adopted fd w)
adopted-Received fd w = elim (Bool-cases (is_positive fd)) [
  | inl positive ↦
      let new : (alloc (tcp_socket fd) w).1.cell w.next ≡ tcp_socket fd = rw (==_refl w.next) in
      rw positive (ap (λ (s : Socket). is_positive s.descriptor) new ∙ positive)
  | inr other ↦ rw other tt
]

adopt-Received : (fd : ℤ) (w : World) → Outcome NoAssertion Received (adopt fd w)
adopt-Received fd w =
    rw (adopt-adopted fd w) (Outcome-return NoAssertion Received (adopted-Received fd w))

next_descriptor-safe :
    (control : ℤ) (rest : Bytes) → Outcome NoAssertion (λ _. Unit) (next_descriptor control rest)
unfolding next_descriptor
next_descriptor-safe control [] = Outcome-halt NoAssertion (λ _. Unit) overrun-NoAssertion
next_descriptor-safe control (b ∷ rest) = Outcome-return NoAssertion (λ _. Unit) tt

scan-safe :
    (control : ℤ) (i nr : ℕ) (bytes : Bytes) (found : Option ℤ)
    → Outcome NoAssertion (λ _. Unit) (scan control i nr bytes found)
unfolding scan
scan-safe control i nr [] found = Outcome-return NoAssertion (λ _. Unit) tt
scan-safe control i nr (b ∷ rest) found =
    elim-both (Outcome NoAssertion (λ _. Unit)) (ltb i nr)
      (elim-both (Outcome NoAssertion (λ _. Unit)) (b == 0)
        (Outcome-bind NoAssertion (λ _. Unit) (λ _. Unit) _ _ (next_descriptor-safe control rest)
          λ fd _. scan-safe control (suc i) (nr - 2) rest (some fd))
        (scan-safe control (suc i) nr rest found))
      (Outcome-return NoAssertion (λ _. Unit) tt)

decide-Decided : (m : MessageResult) (w : World) → Outcome NoAssertion Decided (decide m w)
unfolding decide
decide-Decided m w =
    if-both (Outcome NoAssertion Decided) (is_negative m.ret)
      (Outcome-return NoAssertion Decided tt)
      (if-both (Outcome NoAssertion Decided) (m.ret ==ℤ pos 0)
        (Outcome-return NoAssertion Decided tt)
        (Outcome-bind NoAssertion (λ _. Unit) Decided _ _
          (scan-safe m.control 0 (magnitude m.ret) m.buffer none)
          λ found _.
            Outcome-option NoAssertion (λ _. Unit) Decided found _ _ tt
              (λ _. Outcome-return NoAssertion Decided tt)
              λ fd _.
                Outcome-bind NoAssertion Received Decided _ _ (adopt-Received fd w)
                  λ r k. Outcome-return NoAssertion Decided k))

pub receive_socket-Received :
    (os : Os) (fuel : ℕ) (r : Ref) (w : World)
    → Outcome NoAssertion Received (receive_socket os fuel r w)
unfolding receive_socket
receive_socket-Received os zero r w = Outcome-halt NoAssertion Received fuel-NoAssertion
receive_socket-Received os (suc fuel) r w =
    if-both (Outcome NoAssertion Received) (ensure_control os w).0
      (Outcome-bind NoAssertion Decided Received _ _ (decide-Decided _ _) λ outcome k.
        Outcome-option NoAssertion Decided Received outcome _ _ k
          (λ _. receive_socket-Received os fuel r _)
          λ result received. Outcome-return NoAssertion Received received)
      (Outcome-return NoAssertion Received tt)

pub positive-free : (fd : ℤ) → is_positive fd ≡ true → (fd ==ℤ minus_one) ≡ false
positive-free (pos n) h = refl
positive-free (negsuc n) h = cc

pub wrap_ssl-safe :
    (context : Bool) (r : Ref) (w : World)
    → is_positive (descriptor_of w r) ≡ true
    → Outcome NoAssertion (λ _. Unit) (wrap_ssl context r w)
unfolding wrap_ssl make_ssl_socket new_socket
wrap_ssl-safe true r w h =
    rw (wrap_ssl, make_ssl_socket, positive-free (descriptor_of w r) h)
      (Outcome-return NoAssertion (λ _. Unit) tt)
wrap_ssl-safe false r w h =
    rw (wrap_ssl, make_ssl_socket, positive-free (descriptor_of w r) h)
      (Outcome-halt NoAssertion (λ _. Unit) (λ e. cc))
