-- ===== src/Listener/Farewell.antt =====
-- What the listener says at its end.
use mathlib.Core.List.{reverse, reverse_aux, reverse_aux-eq}
use socket_dispatcher.Prelude.{
  ◌≡◌, refl, ap, ◌∙◌, inl, inr, List, [], ◌∷◌, ◌++◌, map, Bool-cases, select, codes,
}
use socket_dispatcher.World.{Ref, World, Call, Trace, write, call, descriptor_of}
use socket_dispatcher.Listener.{is_dispatcher, say_goodbye}

-- The call that says goodbye to a dispatcher.
abbrev pub farewell : World → Ref → Call
farewell w r = write (descriptor_of w r) (codes "EXIT")

-- The dispatchers among the sockets of a list.
abbrev pub dispatchers : World → List Ref → List Ref
dispatchers w = select (λ r. is_dispatcher (w.cell r))

abbrev said : World → Trace → World
said w t = record w { trace = t }

say_goodbye-reverse_aux :
    (rs : List Ref) (w : World)
    → say_goodbye rs w ≡ said w (reverse_aux (map (farewell w) (dispatchers w rs)) w.trace)
unfolding say_goodbye
say_goodbye-reverse_aux [] w = refl
say_goodbye-reverse_aux (r ∷ rs) w = elim (Bool-cases (is_dispatcher (w.cell r))) [
  | inl other_side ↦
      rw (other_side, say_goodbye) (say_goodbye-reverse_aux rs (call (farewell w r) w))
  | inr other ↦ rw (other, say_goodbye) (say_goodbye-reverse_aux rs w)
]

-- The goodbye writes "EXIT" once to each dispatcher of the list, in its order, and to nobody else,
-- and changes no object.
pub say_goodbye-dispatchers :
    (rs : List Ref) (w : World)
    → say_goodbye rs w
      ≡ record w { trace = reverse (map (farewell w) (dispatchers w rs)) ++ w.trace }
say_goodbye-dispatchers rs w =
    say_goodbye-reverse_aux rs w
    ∙ ap (said w) (reverse_aux-eq (map (farewell w) (dispatchers w rs)) w.trace)
