-- ===== src/World/Ownership/Steps.antt =====
-- How a descriptor gets an object that answers for it, and how it loses it.
use mathlib.Core.Path.{subst}
use socket_dispatcher.Prelude.{
  ◌≡◌, refl, sym, ap, ◌∙◌, ◌≢◌, ◌⊎◌, inl, inr, Bool, true, false, not, ◌&&◌, ◌||◌, ◌∷◌, arith, ◌==◌,
  ==_iff, ==_refl, Bool-cases, ℤ, ◌==ℤ◌, is_negative, ==ℤ_iff, ==ℤ_refl, ==ℤ_false,
}
use socket_dispatcher.Socket.{Socket}
use socket_dispatcher.World.{Ref, Call, Os, World, close, call, alloc, descriptor_of}
use socket_dispatcher.World.Ledger.{
  open_descriptors, has, IsTidy, take_out, enter, has-take_out, has_taken, has_gone,
  Unique-take_out,
}
use socket_dispatcher.World.Quiet.{Quiet}
use socket_dispatcher.World.Ownership.{Loss, Owns, Owns-Quiet, is_open, modify-field}

-- `live`, and one object more.
abbrev pub joined : Ref → (Ref → Bool) → Ref → Bool
joined s live q = (s == q) || live q

-- One descriptor more.
abbrev pub and_one : ℤ → Loss → Loss
and_one fd Lost = record {
  lost = λ t k. (fd ≡ k) ⊎ Lost.lost t k;
  grows = λ c t k x. elim x [ inl e ↦ inl e | inr lost ↦ inr (Lost.grows c t k lost) ];
}

module _ (os : Os) where
  pub next-is_new :
      (live : Ref → Bool) (Lost : Loss) (w : World) → Owns os live Lost w → live w.next ≡ false
  next-is_new live Lost w h = elim (Bool-cases (live w.next)) [
    | inl l ↦ absurd (let k = h.older w.next l in omega arith)
    | inr l ↦ l
  ]

  -- A descriptor is open for which no object answers yet.
  pub record Pending (live : Ref → Bool) (Lost : Loss) (fd : ℤ) (w : World) : Type 0 where
    pub others : Owns os live (and_one fd Lost) w
    pub waits : is_open os w fd ≡ true
    pub free : (r : Ref) → live r ≡ true → descriptor_of w r ≢ fd

  module _ (live : Ref → Bool) (Lost : Loss) (fd : ℤ) where
    abbrev Others : World → Type 0
    Others = Owns os live (and_one fd Lost)

    pub Pending-Quiet : Quiet (Pending live Lost fd)
    Pending-Quiet =
        let q = Owns-Quiet os live (and_one fd Lost) in
        record {
          calls = λ c w e h. record {
            others = q.calls c w e h.others;
            waits = rw e h.waits;
            free = h.free;
          };
          changes = λ f r w m h. record {
            others = q.changes f r w m h.others;
            waits = h.waits;
            free = λ p l e.
                h.free p l
                  (sym (modify-field (λ (s : Socket). s.descriptor) f r p w (λ s. (m s).2)) ∙ e);
          };
          buffers =
              λ b w h. record { others = q.buffers b w h.others; waits = h.waits; free = h.free };
        }

    -- A call that opens it.
    pub enter-Pending :
        (c : Call) (w : World)
        → is_negative fd ≡ false
        → open_descriptors os (c ∷ w.trace) ≡ enter fd (open_descriptors os w.trace)
        → IsTidy os (c ∷ w.trace)
        → is_open os w fd ≡ false
        → Owns os live Lost w
        → Pending live Lost fd (call c w)
    enter-Pending c w real e tidy fresh h =
        let entered : open_descriptors os (c ∷ w.trace) ≡ fd ∷ open_descriptors os w.trace =
          e ∙ rw real refl in
        record {
          others = record {
            older = h.older;
            closing_own = h.closing_own;
            opened = λ r l. rw entered (ground (arith, h.opened r l));
            apart = h.apart;
            accounted = λ k o. elim (Bool-cases (fd ==ℤ k)) [
              | inl new ↦ inr (inl ((==ℤ_iff fd k).0 new))
              | inr old ↦ elim (h.accounted k (rw (entered, old) at o)) [
                | inl x ↦ inl x
                | inr lost ↦ inr (inr (Lost.grows c w.trace k lost))
              ]
            ];
            unique = rw entered (fresh, h.unique);
            tidy = tidy;
          };
          waits = rw (entered, ==ℤ_refl fd) refl;
          free = λ r l same. let k = h.opened r l in cc (k, fresh);
        }

    -- It is given up.
    pub Pending-lost :
        (w : World) → Lost.lost w.trace fd → Pending live Lost fd w → Owns os live Lost w
    Pending-lost w lost h = record {
      older = h.others.older;
      closing_own = h.others.closing_own;
      opened = h.others.opened;
      apart = h.others.apart;
      accounted = λ k o. elim (h.others.accounted k o) [
        | inl x ↦ inl x
        | inr (inl e) ↦ inr (subst (Lost.lost w.trace) e lost)
        | inr (inr gone) ↦ inr gone
      ];
      unique = h.others.unique;
      tidy = h.others.tidy;
    }

  -- A new object answers for it.
  pub alloc-Owns :
      (live : Ref → Bool) (Lost : Loss) (s : Socket) (w : World)
      → s.protect_descriptor ≡ false
      → Pending live Lost s.descriptor w
      → Owns os (joined w.next live) Lost (alloc s w).1
  alloc-Owns live Lost s w closes h =
      let w' = (alloc s w).1 in
      let new : w'.cell w.next ≡ s = rw (==_refl w.next) refl in
      let old : (q : Ref) → live q ≡ true → w'.cell q ≡ w.cell q = λ q l.
        let k = h.others.older q l in
        let other : (w.next == q) ≡ false = ground arith in rw other refl in
      let split : (q : Ref) → ((w.next == q) || live q) ≡ true → (w.next ≡ q) ⊎ (live q ≡ true) =
        λ q l. elim (Bool-cases (w.next == q)) [
          | inl same ↦ inl ((==_iff w.next q).0 same)
          | inr other ↦ inr (rw other at l)
        ] in
      let fd_new : (q : Ref) → w.next ≡ q → descriptor_of w' q ≡ s.descriptor =
        λ q e. ap (descriptor_of w') (sym e) ∙ ap (λ (x : Socket). x.descriptor) new in
      let fd_old : (q : Ref) → live q ≡ true → descriptor_of w' q ≡ descriptor_of w q =
        λ q l. ap (λ (x : Socket). x.descriptor) (old q l) in
      record {
        older = λ q l. elim (split q l) [
          | inl same ↦ omega arith
          | inr was ↦ let k = h.others.older q was in omega arith
        ];
        closing_own = λ q l. elim (split q l) [
          | inl same ↦ rw (← same) (ap (λ (x : Socket). x.protect_descriptor) new ∙ closes)
          | inr was ↦
              ap (λ (x : Socket). x.protect_descriptor) (old q was) ∙ h.others.closing_own q was
        ];
        opened = λ q l. elim (split q l) [
          | inl same ↦ ap (is_open os w) (fd_new q same) ∙ h.waits
          | inr was ↦ ap (is_open os w) (fd_old q was) ∙ h.others.opened q was
        ];
        apart = λ r q a b e. elim (split r a) [
          | inl new_r ↦ elim (split q b) [
            | inl new_q ↦ sym new_r ∙ new_q
            | inr was ↦ absurd (h.free q was (sym (fd_old q was) ∙ sym e ∙ fd_new r new_r))
          ]
          | inr was_r ↦ elim (split q b) [
            | inl new_q ↦ absurd (h.free r was_r (sym (fd_old r was_r) ∙ e ∙ fd_new q new_q))
            | inr was ↦ h.others.apart r q was_r was (sym (fd_old r was_r) ∙ e ∙ fd_old q was)
          ]
        ];
        accounted = λ fd o. elim (h.others.accounted fd o) [
          | inl (q, l, e) ↦ inl (q, ground arith, fd_old q l ∙ e)
          | inr (inl e) ↦ inl (w.next, rw (==_refl w.next) refl, fd_new w.next refl ∙ e)
          | inr (inr lost) ↦ inr lost
        ];
        unique = h.others.unique;
        tidy = h.others.tidy;
      }

  -- A live object closes its descriptor.
  pub close-Owns :
      (live : Ref → Bool) (Lost : Loss) (r : Ref) (w : World)
      → live r ≡ true
      → Owns os live Lost w
      → Owns os (λ q. not (r == q) && live q) Lost (call (close (descriptor_of w r)) w)
  close-Owns live Lost r w l h =
      let fd = descriptor_of w r in
      let w' = call (close fd) w in
      let other : (q : Ref) → (not (r == q) && live q) ≡ true → (r ≢ q) × (live q ≡ true) =
        λ q k. ((λ e. let same = (==_iff r q).1 e in ground arith), ground arith) in
      let stays : (q : Ref) (k : ℤ)
          → live q ≡ true
          → descriptor_of w q ≡ k
          → (fd ==ℤ k) ≡ false
          → (not (r == q) && live q) ≡ true =
        λ q k was e away. elim (Bool-cases (r == q)) [
          | inl same ↦
              let f : fd ≡ k = ap (descriptor_of w) ((==_iff r q).0 same) ∙ e in
              let g = (==ℤ_iff fd k).1 f in cc
          | inr another ↦ rw (another, was) refl
        ] in
      record {
        older = λ q k. h.older q (other q k).1;
        closing_own = λ q k. h.closing_own q (other q k).1;
        opened = λ q k.
            let away : (fd ==ℤ descriptor_of w q) ≡ false =
              ==ℤ_false fd (descriptor_of w q)
                (λ e. (other q k).0 (h.apart r q l (other q k).1 e)) in
            has-take_out fd (descriptor_of w q) (open_descriptors os w.trace) away
            ∙ h.opened q (other q k).1;
        apart = λ p q a b e. h.apart p q (other p a).1 (other q b).1 e;
        accounted = λ k o. elim (Bool-cases (fd ==ℤ k)) [
          | inl same ↦
              let e =
                ap (has (take_out fd (open_descriptors os w.trace))) ((==ℤ_iff fd k).0 same) in
              let gone = has_gone fd (open_descriptors os w.trace) h.unique in cc
          | inr away ↦ elim (h.accounted k (has_taken fd k (open_descriptors os w.trace) o)) [
            | inl (q, was, e) ↦ inl (q, stays q k was e away, e)
            | inr lost ↦ inr (Lost.grows (close fd) w.trace k lost)
          ]
        ];
        unique = Unique-take_out fd (open_descriptors os w.trace) h.unique;
        tidy = (h.opened r l, h.tidy);
      }
