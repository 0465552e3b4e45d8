-- ===== src/Poller/Collect.antt =====
-- The second loop of `pollSockets`: the bits stored in the sockets, and the output list.
use socket_dispatcher.Prelude.{
  ℕ, zero, suc, ◌≤◌, ◌≡◌, refl, sym, ap, ◌∙◌, inl, inr, true, false, List, [], ◌∷◌, ◌++◌,
  append-nil, append_assoc, arith, ◌==◌, if◌then◌else◌, ==_iff, ==_refl, Bool-cases, length, take,
}
use socket_dispatcher.Socket.{PollMask, is_empty, set_revents}
use socket_dispatcher.World.{Ref, World, modify}
use socket_dispatcher.SocketsList.{SocketsList, put_socket, is_full}
use socket_dispatcher.SocketsList.Delete.{contains, Distinct}
use socket_dispatcher.SocketsList.Full.{IsBounded, put_socket-IsBounded}
use socket_dispatcher.Poller.{collect}
use socket_dispatcher.Poller.Masks.{active, is_empty-no_events, Cleared, Marked}

module _ (bits : ℕ → PollMask) (i : ℕ) (r : Ref) (rs : List Ref) (w : World)
    (out : SocketsList) where
  pub collect-idle :
      is_empty (bits i) ≡ true → collect bits i (r ∷ rs) w out ≡ collect bits (suc i) rs w out
  unfolding collect
  collect-idle e = rw (e, collect)

  pub collect-active :
      is_empty (bits i) ≡ false
      → collect bits i (r ∷ rs) w out
        ≡ collect bits (suc i) rs (modify r (set_revents (bits i)) w) (put_socket r out).1
  unfolding collect
  collect-active e = rw (e, collect)

pub collect-frame :
    (bits : ℕ → PollMask) (i : ℕ) (rs : List Ref) (w : World) (out : SocketsList)
    → ((collect bits i rs w out).0.next ≡ w.next) × ((collect bits i rs w out).0.trace ≡ w.trace)
unfolding collect
collect-frame bits i [] w out = (refl, refl)
collect-frame bits i (r ∷ rs) w out = ground (
  arith,
  collect-frame bits (suc i) rs (if is_empty (bits i) then w else modify r (set_revents (bits i)) w)
      (if is_empty (bits i) then out else (put_socket r out).1),
)

pub collect-other :
    (bits : ℕ → PollMask) (i : ℕ) (rs : List Ref) (w : World) (out : SocketsList) (q : Ref)
    → contains q rs ≡ false
    → (collect bits i rs w out).0.cell q ≡ w.cell q
unfolding collect
collect-other bits i [] w out q h = refl
collect-other bits i (r ∷ rs) w out q h =
    let other : (r == q) ≡ false = ground arith in
    let rest : contains q rs ≡ false = ground arith in
    rw (collect-other bits (suc i) rs _ _ q rest)
      (elim (Bool-cases (is_empty (bits i))) [ inl e ↦ rw e | inr e ↦ rw (e, other) ])

-- Storing in a socket outside a list changes neither predicate of the list.
module _ (r : Ref) (m : PollMask) (w : World) where
  pub Cleared-store :
      (rs : List Ref)
      → contains r rs ≡ false
      → Cleared rs w
      → Cleared rs (modify r (set_revents m) w)
  Cleared-store [] h c = tt
  Cleared-store (x ∷ xs) h c =
      let other : (r == x) ≡ false = ground arith in
      (rw other c.0, Cleared-store xs (ground arith) c.1)

  pub Marked-store :
      (bits : ℕ → PollMask) (i : ℕ) (rs : List Ref) (w' : World)
      → contains r rs ≡ false
      → Marked bits i rs (modify r (set_revents m) w) w'
      → Marked bits i rs w w'
  Marked-store bits i [] w' h c = tt
  Marked-store bits i (x ∷ xs) w' h c =
      let other : (r == x) ≡ false = ground arith in
      let same : (modify r (set_revents m) w).cell x ≡ w.cell x = rw other in
      (c.0 ∙ ap (set_revents (bits i)) same, Marked-store bits (suc i) xs w' (ground arith) c.1)

pub collect-Marked :
    (bits : ℕ → PollMask) (i : ℕ) (rs : List Ref) (w : World) (out : SocketsList)
    → Distinct rs
    → Cleared rs w
    → Marked bits i rs w (collect bits i rs w out).0
unfolding collect
collect-Marked bits i [] w out d c = tt
collect-Marked bits i (r ∷ rs) w out d c = elim (Bool-cases (is_empty (bits i))) [
  | inl e ↦ rw (collect-idle bits i r rs w out e) (
    collect-other bits (suc i) rs w out r d.0 ∙ ground (arith, is_empty-no_events (bits i) e, c.0),
    collect-Marked bits (suc i) rs w out d.1 c.1,
  )
  | inr e ↦ rw (collect-active bits i r rs w out e) (
    collect-other bits (suc i) rs _ _ r d.0 ∙ rw (==_refl r),
    Marked-store r (bits i) w bits (suc i) rs _ d.0 (
        collect-Marked bits (suc i) rs (modify r (set_revents (bits i)) w) (put_socket r out).1 d.1
          (Cleared-store r (bits i) w rs d.0 c.1)),
  )
]

pub take-all : (xs ys : List Ref) → take (length xs) (xs ++ ys) ≡ xs
take-all [] [] = refl
take-all [] (y ∷ ys) = refl
take-all (x ∷ xs) ys = ap (◌∷◌ x) (take-all xs ys)

pub take-short : (n : ℕ) (xs : List Ref) → length xs ≤ n → take n xs ≡ xs
take-short zero [] h = refl
take-short zero (x ∷ xs) h = absurd (omega arith)
take-short (suc n) [] h = refl
take-short (suc n) (x ∷ xs) h = ap (◌∷◌ x) (take-short n xs (omega arith))

module _ (r : Ref) (out : SocketsList) (rs : List Ref) where
  -- A socket that finds no place is the one that the bound would cut off.
  pub put_socket-take :
      IsBounded out
      → take (put_socket r out).1.max_size ((put_socket r out).1.sockets ++ rs)
        ≡ take out.max_size (out.sockets ++ r ∷ rs)
  unfolding put_socket
  put_socket-take h = elim (Bool-cases (is_full out)) [
    | inl e ↦
        let n : length out.sockets ≡ out.max_size = (==_iff _ _).0 e in
        rw (e, ← n) (take-all out.sockets rs ∙ sym (take-all out.sockets (r ∷ rs)))
    | inr e ↦ rw (e, append_assoc out.sockets (r ∷ []) rs)
  ]

  pub put_socket-max_size : (put_socket r out).1.max_size ≡ out.max_size
  unfolding put_socket
  put_socket-max_size = ground arith

-- The output list takes the active sockets in order, up to its bound.
pub collect-sockets :
    (bits : ℕ → PollMask) (i : ℕ) (rs : List Ref) (w : World) (out : SocketsList)
    → IsBounded out
    → (collect bits i rs w out).1
      ≡ record out { sockets = take out.max_size (out.sockets ++ active bits i rs) }
collect-sockets bits i [] w out h =
    unfold collect in
    (ground (arith, take-short out.max_size out.sockets h, append-nil out.sockets))
collect-sockets bits i (r ∷ rs) w out h = elim (Bool-cases (is_empty (bits i))) [
  | inl e ↦ rw (collect-idle bits i r rs w out e, e) (collect-sockets bits (suc i) rs w out h)
  | inr e ↦
      rw (collect-active bits i r rs w out e, e)
        (ground (
          arith,
          collect-sockets bits (suc i) rs (modify r (set_revents (bits i)) w) (put_socket r out).1
              (put_socket-IsBounded r out h),
          put_socket-take r out (active bits (suc i) rs) h,
          put_socket-max_size r out,
        ))
]
