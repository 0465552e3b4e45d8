-- ===== src/SocketUtils/Holding.antt =====
-- The objects that a process keeps alive by its pointers and its two lists.
use mathlib.Core.Path.{subst}
use socket_dispatcher.Prelude.{
  ◌≡◌, refl, sym, ap, ◌∙◌, inl, inr, Bool, true, false, ◌||◌, List, [], ◌∷◌, ◌++◌, arith, ◌==◌,
  if◌then◌else◌, ==_iff, ==_refl, Bool-cases,
}
use socket_dispatcher.World.{Ref, Os, World, descriptor_of}
use socket_dispatcher.World.Ownership.{Loss, Owns}
use socket_dispatcher.World.Ownership.Steps.{joined}
use socket_dispatcher.SocketsList.{SocketsList, put_socket, del_socket, is_full}
use socket_dispatcher.SocketsList.Delete.{contains, Distinct, del_socket-Erases}
use socket_dispatcher.SocketsList.Distinct.{contains-append, Distinct-append, Distinct-cut}
use socket_dispatcher.SocketUtils.{destroy, release}
use socket_dispatcher.SocketUtils.Ownership.{Owns-same, destroy-Owns, release-Owns, remaining}

abbrev pub nobody : Ref → Bool
nobody r = false

-- An object that one of the pointers `us` or one of the two lists keeps alive.
abbrev pub held : List Ref → List Ref → List Ref → Ref → Bool
held us ready sockets q = contains q us || (contains q sockets || contains q ready)

held-append :
    (us ready sockets : List Ref) (s q : Ref)
    → joined s (held us ready sockets) q ≡ held us ready (sockets ++ s ∷ []) q
held-append us ready sockets s q = ground (arith, contains-append q sockets (s ∷ []))

-- What is cut out of a list is still held if it is in the other one.
held-cut :
    (us ready before after : List Ref) (x : Ref)
    → contains x ready ≡ true
    → (q : Ref) → held us ready (before ++ x ∷ after) q ≡ held us ready (before ++ after) q
held-cut us ready before after x there q = elim (Bool-cases (x == q)) [
  | inl same ↦
      let e : contains x ready ≡ contains q ready =
        ap (λ (y : Ref). contains y ready) ((==_iff x q).0 same) in
      let k : contains q ready ≡ true = sym e ∙ there in rw k (ground arith)
  | inr other ↦
      rw (contains-append q before (x ∷ after), contains-append q before after, other) refl
]

-- What is held once the list of the ready ones is cleared, and once the other one is.
remaining-held :
    (us ready sockets : List Ref) (q : Ref)
    → remaining (us ++ sockets) ready (held us ready sockets) q ≡ held us [] sockets q
remaining-held us ready sockets q = ground (arith, contains-append q us sockets)

remaining_pointers :
    (us sockets : List Ref) (q : Ref) → remaining us sockets (held us [] sockets) q ≡ contains q us
remaining_pointers us sockets q = ground arith

pub held-part :
    (us sockets part : List Ref)
    → ((q : Ref) → contains q part ≡ true → contains q sockets ≡ true)
    → (q : Ref) → held us [] sockets q ≡ held us part sockets q
held-part us sockets part h q = elim (Bool-cases (contains q part)) [
  | inl there ↦ rw (there, h q there) refl
  | inr absent ↦ rw absent refl
]

module _ (os : Os) (Lost : Loss) where
  -- The objects that are left when a new one goes away.
  pub leave :
      (live : Ref → Bool) (s : Ref) (w : World)
      → live s ≡ false
      → Owns os (joined s live) Lost w
      → Owns os live Lost (destroy s w)
  leave live s w new h =
      Owns-same os Lost (destroy s w)
        (λ q. elim (Bool-cases (s == q)) [
          | inl same ↦
              let e : live s ≡ live q = ap live ((==_iff s q).0 same) in rw same (sym new ∙ e)
          | inr other ↦ rw other refl
        ])
        (destroy-Owns os Lost (joined s live) s w (rw (==_refl s) refl) h)

  -- A process that has called nothing yet.
  pub begin : (w : World) → w.trace ≡ [] → Owns os nobody Lost w
  begin w e = record {
    older = λ r l. cc;
    closing_own = λ r l. cc;
    opened = λ r l. cc;
    apart = λ r q l m. cc;
    accounted = λ fd o. let k = rw e at o in cc;
    unique = rw e tt;
    tidy = rw e tt;
  }

  pub clear_ready-Owns :
      (us ready sockets : List Ref) (w : World)
      → Distinct ready
      → Owns os (held us ready sockets) Lost w
      → Owns os (held us [] sockets) Lost (release (us ++ sockets) ready w)
  clear_ready-Owns us ready sockets w d h = Owns-same os Lost _ (remaining-held us ready sockets) (
      release-Owns os Lost (us ++ sockets) ready (held us ready sockets) w d (λ q k. ground arith)
        h)

  pub clear_sockets-Owns :
      (us sockets : List Ref) (w : World)
      → Distinct sockets
      → Owns os (held us [] sockets) Lost w
      → Owns os (λ q. contains q us) Lost (release us sockets w)
  clear_sockets-Owns us sockets w d h =
      Owns-same os Lost _ (remaining_pointers us sockets)
        (release-Owns os Lost us sockets (held us [] sockets) w d (λ q k. ground arith) h)

  module _ (us ready : List Ref) where
    -- The pointers and the two lists answer for the open descriptors, and the list of sockets has none
    -- twice.
    abbrev pub Holds : List Ref → World → Type 0
    Holds sockets w = Distinct sockets × Owns os (held us ready sockets) Lost w

    pub put-Holds :
        (s : Ref) (l : SocketsList) (w : World)
        → held us ready l.sockets s ≡ false
        → Distinct l.sockets
        → Owns os (joined s (held us ready l.sockets)) Lost w
        → Holds (put_socket s l).1.sockets (if (put_socket s l).0 then w else destroy s w)
    unfolding put_socket
    put-Holds s l w new d h = elim (Bool-cases (is_full l)) [
      | inl full ↦ rw full (d, leave (held us ready l.sockets) s w new h)
      | inr room ↦ rw room (
        Distinct-append s l.sockets (ground arith) d,
        Owns-same os Lost w (held-append us ready l.sockets s) h,
      )
    ]

    -- The socket that `delSocket` takes out of the list is the one that it was asked for, and stays in
    -- the list of those that are ready.
    pub del-Holds :
        (r : Ref) (l : SocketsList) (w : World)
        → contains r ready ≡ true
        → Holds l.sockets w
        → Holds (del_socket (descriptor_of w) r l).1.sockets w
    unfolding del_socket
    del-Holds r l w there h = elim (Bool-cases (is_full l)) [
      | inl full ↦ rw full h
      | inr room ↦ elim (del_socket-Erases (descriptor_of w) r l room) [
        | inl (lacks, e) ↦
            subst (λ (m : List Ref). Holds m w) (sym (ap (λ (p : Bool × List Ref). p.1) e)) h
        | inr (before, x, after, split, lacks, same, e) ↦
            let h' = subst (λ (m : List Ref). Holds m w) split h in
            let in_list : contains x (before ++ x ∷ after) ≡ true =
              rw (contains-append x before (x ∷ after), ==_refl x) (ground arith) in
            let found : x ≡ r = h'.1.apart x r (ground arith) (ground arith) same in
            let k : contains x ready ≡ true = rw found there in
            subst (λ (m : List Ref). Holds m w) (sym (ap (λ (p : Bool × List Ref). p.1) e))
              (
                Distinct-cut x before after h'.0,
                Owns-same os Lost w (held-cut us ready before after x k) h'.1,
              )
      ]
    ]
