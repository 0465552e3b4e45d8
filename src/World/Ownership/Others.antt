-- ===== src/World/Ownership/Others.antt =====
-- What an object that answers for no descriptor may do: it may change, and one more may come.
use socket_dispatcher.Prelude.{
  ◌≤◌, ◌≡◌, refl, sym, ap, ◌∙◌, inl, inr, Bool, true, false, arith, ◌==◌, ==_iff, Bool-cases, ℤ,
}
use socket_dispatcher.Socket.{Socket}
use socket_dispatcher.World.{Ref, Os, World, modify, alloc, descriptor_of}
use socket_dispatcher.World.Ownership.{Loss, Owns}
use socket_dispatcher.World.Ownership.Steps.{and_one, Pending}

module _ (os : Os) where
  -- An object that answers for nothing may change or come.
  module _ (live : Ref → Bool) (Lost : Loss) where
    old_cell :
        (s : Socket) (w : World)
        → Owns os live Lost w
        → (q : Ref) → live q ≡ true
        → (alloc s w).1.cell q ≡ w.cell q
    old_cell s w h q l =
        let k = h.older q l in let other : (w.next == q) ≡ false = ground arith in rw other refl

    -- The live objects are as they were, and so are the calls.
    same_cells-Owns :
        (w w' : World)
        → w'.trace ≡ w.trace
        → w.next ≤ w'.next
        → ((q : Ref) → live q ≡ true → w'.cell q ≡ w.cell q)
        → Owns os live Lost w
        → Owns os live Lost w'
    same_cells-Owns w w' t n c h =
        let fd : (q : Ref) → live q ≡ true → descriptor_of w' q ≡ descriptor_of w q =
          λ q l. ap (λ (s : Socket). s.descriptor) (c q l) in
        record {
          older = λ q l. let k = h.older q l in omega arith;
          closing_own =
              λ q l. ap (λ (s : Socket). s.protect_descriptor) (c q l) ∙ h.closing_own q l;
          opened = λ q l. rw (t, fd q l) (h.opened q l);
          apart = λ r q a b e. h.apart r q a b (sym (fd r a) ∙ e ∙ fd q b);
          accounted = λ k o. elim (h.accounted k (rw t at o)) [
            | inl (q, l, e) ↦ inl (q, l, fd q l ∙ e)
            | inr lost ↦ inr (rw t lost)
          ];
          unique = rw t h.unique;
          tidy = rw t h.tidy;
        }

    pub modify_other-Owns :
        (r : Ref) (f : Socket → Socket) (w : World)
        → live r ≡ false
        → Owns os live Lost w
        → Owns os live Lost (modify r f w)
    modify_other-Owns r f w out h =
        same_cells-Owns w (modify r f w) refl (omega arith)
          (λ q l.
            let other : (r == q) ≡ false = elim (Bool-cases (r == q)) [
              | inl same ↦ let e = ap live ((==_iff r q).0 same) in cc (e, out, l)
              | inr away ↦ away
            ] in
            rw other refl)
          h

    alloc_other-Owns :
        (s : Socket) (w : World) → Owns os live Lost w → Owns os live Lost (alloc s w).1
    alloc_other-Owns s w h = same_cells-Owns w (alloc s w).1 refl (omega arith) (old_cell s w h) h

  pub alloc_other-Pending :
      (live : Ref → Bool) (Lost : Loss) (fd : ℤ) (s : Socket) (w : World)
      → Pending os live Lost fd w
      → Pending os live Lost fd (alloc s w).1
  alloc_other-Pending live Lost fd s w h = record {
    others = alloc_other-Owns live (and_one fd Lost) s w h.others;
    waits = h.waits;
    free = λ r l e. h.free r l (
        sym (ap (λ (x : Socket). x.descriptor) (old_cell live (and_one fd Lost) s w h.others r l))
        ∙ e);
  }
