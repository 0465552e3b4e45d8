-- ===== src/SocketsList/Distinct.antt =====
-- The members of lists that are joined, cut and cut short, and that stand in them once.
use socket_dispatcher.Prelude.{
  ℕ, zero, suc, ◌≡◌, refl, sym, ap, ◌∙◌, inl, inr, Bool, true, false, ◌||◌, List, [], ◌∷◌, ◌++◌,
  arith, ◌==◌, ==_iff, ==_refl, if-both, Bool-cases, take, ℤ, ◌==ℤ◌,
}
use socket_dispatcher.World.{Ref}
use socket_dispatcher.SocketsList.{SocketsList, put_socket, del_socket, erase_first, is_full}
use socket_dispatcher.SocketsList.Delete.{contains, Distinct, Apart, Lacks}

pub contains-append :
    (q : Ref) (xs ys : List Ref) → contains q (xs ++ ys) ≡ (contains q xs || contains q ys)
contains-append q [] ys = refl
contains-append q (x ∷ xs) ys = ground (arith, contains-append q xs ys)

pub Distinct-append :
    (s : Ref) (xs : List Ref) → contains s xs ≡ false → Distinct xs → Distinct (xs ++ s ∷ [])
Distinct-append s [] h d = (refl, tt)
Distinct-append s (x ∷ xs) h d =
    let other : (s == x) ≡ false = ground arith in
    (contains-append x xs (s ∷ []) ∙ ground (arith, d.0), Distinct-append s xs (ground arith) d.1)

pub Distinct-cut :
    (x : Ref) (before after : List Ref)
    → Distinct (before ++ x ∷ after)
    → Distinct (before ++ after)
Distinct-cut x [] after d = d.1
Distinct-cut x (b ∷ before) after d = (
  contains-append b before after ∙ ground (arith, contains-append b before (x ∷ after), d.0),
  Distinct-cut x before after d.1,
)

-- A list that is cut short.
pub contains-take :
    (q : Ref) (n : ℕ) (xs : List Ref) → contains q (take n xs) ≡ true → contains q xs ≡ true
contains-take q zero [] h = h
contains-take q zero (x ∷ xs) h = cc
contains-take q (suc n) [] h = h
contains-take q (suc n) (x ∷ xs) h = ground (arith, contains-take q n xs)

pub Distinct-take : (n : ℕ) (xs : List Ref) → Distinct xs → Distinct (take n xs)
Distinct-take zero [] d = tt
Distinct-take zero (x ∷ xs) d = tt
Distinct-take (suc n) [] d = tt
Distinct-take (suc n) (x ∷ xs) d = (
  elim (Bool-cases (contains x (take n xs))) [
    | inl there ↦ absurd (let k = contains-take x n xs there in cc (k, d.0))
    | inr absent ↦ absent
  ],
  Distinct-take n xs d.1,
)

-- The list starts with this object.
abbrev pub StartsWith : Ref → List Ref → Type 0
StartsWith u xs = (rest : List Ref) × (xs ≡ u ∷ rest)

pub put_socket-StartsWith :
    (u r : Ref) (l : SocketsList) → StartsWith u l.sockets → StartsWith u (put_socket r l).1.sockets
unfolding put_socket
put_socket-StartsWith u r l h =
    if-both (λ (x : Bool × SocketsList). StartsWith u x.1.sockets) (is_full l) h
      (h.0 ++ r ∷ [], ap (λ (xs : List Ref). xs ++ r ∷ []) h.1)

-- Deleting a socket of another descriptor leaves it there.
pub del_socket-StartsWith :
    (d : Ref → ℤ) (u r : Ref) (l : SocketsList)
    → (d u ==ℤ d r) ≡ false
    → StartsWith u l.sockets
    → StartsWith u (del_socket d r l).1.sockets
unfolding del_socket erase_first
del_socket-StartsWith d u r l other h =
    if-both (λ (x : Bool × SocketsList). StartsWith u x.1.sockets) (is_full l) h
      ((erase_first d (d r) h.0).1, rw (h.1, erase_first, other) refl)

Distinct-Lacks :
    (d : Ref → ℤ) (x : Ref) (xs : List Ref)
    → contains x xs ≡ false
    → ((r : Ref) → contains r xs ≡ true → d r ≡ d x → x ≡ r)
    → Lacks d (d x) xs
Distinct-Lacks d x [] c h = tt
Distinct-Lacks d x (y ∷ ys) c h = (
  (λ e.
      let same : x ≡ y = h y (rw (==_refl y) refl) e in
      let k = (==_iff y x).1 (sym same) in ground arith),
  Distinct-Lacks d x ys (ground arith) (λ r m. h r (ground arith)),
)

-- Objects that the descriptor tells apart, none twice, have different descriptors.
pub Distinct-Apart :
    (d : Ref → ℤ) (xs : List Ref)
    → ((r q : Ref) → contains r xs ≡ true → contains q xs ≡ true → d r ≡ d q → r ≡ q)
    → Distinct xs
    → Apart d xs
Distinct-Apart d [] h k = tt
Distinct-Apart d (x ∷ xs) h k =
    let inner = λ (r q : Ref) (a : contains r xs ≡ true) (b : contains q xs ≡ true).
      h r q (ground arith) (ground arith) in
    (
      Distinct-Lacks d x xs k.0 (λ r m e. sym (h r x (ground arith) (rw (==_refl x) refl) e)),
      Distinct-Apart d xs inner k.1,
    )
