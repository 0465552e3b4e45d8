-- ===== src/SocketUtils/Ownership.antt =====
-- How objects that answer for a descriptor go away.
use mathlib.Core.Path.{subst}
use socket_dispatcher.Prelude.{
  ◌≡◌, refl, ap, fun_ext, inl, inr, Bool, true, false, not, ◌&&◌, ◌||◌, List, [], ◌∷◌, arith, ◌==◌,
  ==_iff, Bool-cases, ℤ, c_string,
}
use socket_dispatcher.Socket.{
  Socket, SocketClass, plain, ssl_socket, tcp_listener_socket, tcp_ssl_listener_socket,
  unix_listener_socket,
}
use socket_dispatcher.World.{Ref, Os, World, ssl_free, unlink, close, call, descriptor_of}
use socket_dispatcher.World.Quiet.{Quiet}
use socket_dispatcher.World.Ownership.{Loss, Owns, Owns-Quiet}
use socket_dispatcher.World.Ownership.Steps.{close-Owns}
use socket_dispatcher.SocketsList.Delete.{contains, Distinct}
use socket_dispatcher.SocketUtils.{destroy, class_destructor, release}

pub class_destructor-keeps :
    (Q : World → Type 0) (q : Quiet Q) (c : SocketClass) (fd : ℤ) (w : World)
    → Q w
    → Q (class_destructor c w fd)
unfolding class_destructor
class_destructor-keeps Q q plain fd w h = h
class_destructor-keeps Q q ssl_socket fd w h = q.calls (ssl_free fd) w refl h
class_destructor-keeps Q q tcp_listener_socket fd w h = h
class_destructor-keeps Q q tcp_ssl_listener_socket fd w h = h
class_destructor-keeps Q q (unix_listener_socket path) fd w h =
    q.calls (unlink (c_string path)) w refl h

class_destructor-cell :
    (c : SocketClass) (fd : ℤ) (w : World) → (class_destructor c w fd).cell ≡ w.cell
unfolding class_destructor
class_destructor-cell plain fd w = refl
class_destructor-cell ssl_socket fd w = refl
class_destructor-cell tcp_listener_socket fd w = refl
class_destructor-cell tcp_ssl_listener_socket fd w = refl
class_destructor-cell (unix_listener_socket path) fd w = refl

-- The objects of `live` but `r`.
abbrev pub but : Ref → (Ref → Bool) → Ref → Bool
but r live q = not (r == q) && live q

-- What is left of `live` after a list is cleared whose members are held elsewhere if they are in
-- `kept`.
abbrev pub remaining : List Ref → List Ref → (Ref → Bool) → Ref → Bool
remaining kept rs live q = live q && (contains q kept || not (contains q rs))

held_step :
    (kept rs : List Ref) (live : Ref → Bool) (r : Ref)
    → contains r kept ≡ true
    → (q : Ref) → remaining kept rs live q ≡ remaining kept (r ∷ rs) live q
held_step kept rs live r held q = elim (Bool-cases (r == q)) [
  | inl same ↦ let e : r ≡ q = (==_iff r q).0 same in rw (← e) (ground (arith, held))
  | inr other ↦ rw other refl
]

free_step :
    (kept rs : List Ref) (live : Ref → Bool) (r : Ref)
    → contains r kept ≡ false
    → (q : Ref) → remaining kept rs (but r live) q ≡ remaining kept (r ∷ rs) live q
free_step kept rs live r free q = elim (Bool-cases (r == q)) [
  | inl same ↦ let e : r ≡ q = (==_iff r q).0 same in rw (← e) (ground (arith, free))
  | inr other ↦ rw other refl
]

another :
    (r : Ref) (rs : List Ref) (live : Ref → Bool)
    → contains r rs ≡ false
    → (q : Ref) → contains q rs ≡ true
    → live q ≡ true
    → but r live q ≡ true
another r rs live new q there l = elim (Bool-cases (r == q)) [
  | inl same ↦
      let e : contains r rs ≡ contains q rs =
        ap (λ (x : Ref). contains x rs) ((==_iff r q).0 same) in
      cc (e, new, there)
  | inr other ↦ rw (other, l) refl
]

module _ (os : Os) (Lost : Loss) where
  pub Owns-same :
      {live live' : Ref → Bool} (w : World)
      → ((q : Ref) → live q ≡ live' q)
      → Owns os live Lost w
      → Owns os live' Lost w
  Owns-same w e h = subst (λ (l : Ref → Bool). Owns os l Lost w) (fun_ext e) h

  pub destroy-Owns :
      (live : Ref → Bool) (r : Ref) (w : World)
      → live r ≡ true
      → Owns os live Lost w
      → Owns os (but r live) Lost (destroy r w)
  unfolding destroy
  destroy-Owns live r w l h =
      let s = w.cell r in
      let w' = class_destructor s.class w s.descriptor in
      let h' =
        class_destructor-keeps (Owns os live Lost) (Owns-Quiet os live Lost) s.class s.descriptor w
          h in
      let same : descriptor_of w' r ≡ s.descriptor =
        ap (λ (cell : Ref → Socket). (cell r).descriptor)
          (class_destructor-cell s.class s.descriptor w) in
      rw (destroy, h.closing_own r l)
        (subst (λ (fd : ℤ). Owns os (but r live) Lost (call (close fd) w')) same
          (close-Owns os live Lost r w' l h'))

  pub release-Owns :
      (kept rs : List Ref) (live : Ref → Bool) (w : World)
      → Distinct rs
      → ((q : Ref) → contains q rs ≡ true → live q ≡ true)
      → Owns os live Lost w
      → Owns os (remaining kept rs live) Lost (release kept rs w)
  unfolding release
  release-Owns kept [] live w d m h = Owns-same w (λ q. ground arith) h
  release-Owns kept (r ∷ rs) live w d m h = elim (Bool-cases (contains r kept)) [
    | inl held ↦
        rw (held, release)
          (Owns-same _ (λ q. held_step kept rs live r held q)
            (release-Owns kept rs live w d.1 (λ q k. m q (ground arith)) h))
    | inr free ↦
        rw (free, release)
          (Owns-same _ (λ q. free_step kept rs live r free q)
            (release-Owns kept rs (but r live) (destroy r w) d.1
              (λ q k. another r rs live d.0 q k (m q (ground arith)))
              (destroy-Owns live r w (m r (ground arith)) h)))
  ]
