-- ===== src/Prelude/Memory.antt =====
-- Memory as lists of bytes: `memcmp`, C strings, and the bytes of a literal.
use Prim.Native.Nat.{ℕ}
use Prim.Native.Char.{code}
use Prim.Native.String.{String}
use mathlib.Core.Logic.{◌≢◌}
use mathlib.Core.Bool.{Bool, true, false, ◌&&◌}
use mathlib.Core.List.{List, [], ◌∷◌}
use socket_dispatcher.Prelude.Bools.{◌==◌, if◌then◌else◌}
use socket_dispatcher.Prelude.Lists.{All}

abbrev pub Bytes : Type 0
Bytes = List ℕ

-- The code points of a literal, which are its bytes where it is ASCII.
abbrev pub codes : String → Bytes
codes String.[] = []
codes (String.◌∷◌ c s) = code c ∷ codes s

-- `memcmp(mem, p, n) == 0` for the n bytes of `p`.
unfoldable pub starts_with : Bytes → Bytes → Bool
starts_with [] mem = true
starts_with (b ∷ bs) [] = false
starts_with (b ∷ bs) (c ∷ cs) = b == c && starts_with bs cs

-- The C string at the head of a piece of memory: the bytes before the first NUL.
unfoldable pub c_string : Bytes → Bytes
c_string [] = []
c_string (b ∷ bs) = let rest = c_string bs in if b == 0 then [] else b ∷ rest

-- Text that C code can hold: no byte of it is NUL.
abbrev pub IsText : Bytes → Type 0
IsText = All (λ b. b ≢ 0)
