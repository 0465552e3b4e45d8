-- ===== src/Poller/Ready.antt =====
-- The sockets that `pollSockets` finds ready are members of its list, none of them twice.
use socket_dispatcher.Prelude.{
  ℕ, suc, ◌≡◌, ap, ◌∙◌, inl, inr, true, List, [], ◌∷◌, ◌++◌, arith, Bool-cases, take,
}
use socket_dispatcher.Socket.{PollMask, is_empty}
use socket_dispatcher.World.{Ref, Os, World, Halt}
use socket_dispatcher.World.Outcomes.{Outcome, Outcome-return}
use socket_dispatcher.SocketsList.{SocketsList, ErrorType}
use socket_dispatcher.SocketsList.Delete.{contains, Distinct}
use socket_dispatcher.SocketsList.Distinct.{contains-take, Distinct-take}
use socket_dispatcher.Poller.{poll_sockets}
use socket_dispatcher.Poller.Masks.{active, bits_after}
use socket_dispatcher.Poller.Bounds.{IsPollable}
use socket_dispatcher.Poller.Answer.{answer, poll_sockets-Polled}

contains-active :
    (bits : ℕ → PollMask) (i : ℕ) (rs : List Ref) (q : Ref)
    → contains q (active bits i rs) ≡ true
    → contains q rs ≡ true
contains-active bits i [] q h = h
contains-active bits i (r ∷ rs) q h = ground (arith, contains-active bits (suc i) rs q)

Distinct-active :
    (bits : ℕ → PollMask) (i : ℕ) (rs : List Ref) → Distinct rs → Distinct (active bits i rs)
Distinct-active bits i [] d = tt
Distinct-active bits i (r ∷ rs) d = elim (Bool-cases (is_empty (bits i))) [
  | inl idle ↦ rw idle (Distinct-active bits (suc i) rs d.1)
  | inr busy ↦ rw busy (
    elim (Bool-cases (contains r (active bits (suc i) rs))) [
      | inl there ↦ absurd (let k = contains-active bits (suc i) rs r there in cc (k, d.0))
      | inr absent ↦ absent
    ],
    Distinct-active bits (suc i) rs d.1,
  )
]

-- Members of the first list, none of them twice.
abbrev pub IsPart : List Ref → List Ref → Type 0
IsPart rs part = Distinct part × ((q : Ref) → contains q part ≡ true → contains q rs ≡ true)

pub poll_sockets-IsPart :
    (H : Halt → Type 0) (os : Os) (input out : SocketsList) (w : World)
    → IsPollable input
    → Distinct input.sockets
    → out.sockets ≡ []
    → Outcome H
        (λ (v : ErrorType × World × SocketsList). IsPart input.sockets v.2.sockets)
        (poll_sockets os input out w)
poll_sockets-IsPart H os input out w p d e =
    let (v, returned, asked, polled) =
      poll_sockets-Polled os input out w (omega arith) d (rw e (omega arith)) in
    let bits = bits_after (answer os input w) in
    let rs = active bits 0 input.sockets in
    let same : v.2.sockets ≡ take out.max_size rs =
      ap (λ (l : SocketsList). l.sockets) polled.4
      ∙ ap (λ (s : List Ref). take out.max_size (s ++ rs)) e in
    rw returned (
      Outcome-return H (λ (v : ErrorType × World × SocketsList). IsPart input.sockets v.2.sockets)
        (rw same (
          Distinct-take out.max_size rs (Distinct-active bits 0 input.sockets d),
          λ q k. contains-active bits 0 input.sockets q (contains-take q out.max_size rs k),
        )))
