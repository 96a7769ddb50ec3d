-- ===== src/Prelude/Text.antt =====
-- Texts as bytes, and what the source uses of the C library on them: a pointer into a buffer is
-- the rest of the buffer, which a zero byte ends.
use Prim.Native.Char.{code}
use Prim.Native.String.{String}
use Prim.Native.Nat.{ℕ}
use mathlib.Core.Path.{◌≡◌, refl}
use mathlib.Core.Option.{Option, none, some}
use mathlib.Core.List.{List, [], ◌∷◌, ◌++◌}
use native.Mathlib.Omega.{arith}
use olivehc.Prelude.Tests.{◌==◌, if◌then◌else◌}

abbrev pub Bytes : Type 0
Bytes = List ℕ

abbrev pub codes : String → Bytes
codes String.[] = []
codes (String.◌∷◌ c s) = code c ∷ codes s

-- `*p`
abbrev pub byte_at : Bytes → ℕ
byte_at [] = 0
byte_at (c ∷ p) = c

-- `strncmp(p, word, strlen(word)) == 0`, and then the rest behind the word.
abbrev pub strip : Bytes → Bytes → Option Bytes
strip [] p = some p
strip (w ∷ ws) [] = none
strip (w ∷ ws) (c ∷ p) = if w == c then strip ws p else none

-- `while(*p == ' ') p++`
abbrev pub skip_spaces : Bytes → Bytes
skip_spaces [] = []
skip_spaces (c ∷ p) = let rest = skip_spaces p in if c == 32 then rest else c ∷ p

-- `strchr(p, c)`: what stands before the byte, and the text from it on.
abbrev pub split_at : ℕ → Bytes → Option (Bytes × Bytes)
split_at c [] = none
split_at c (x ∷ p) =
    let rest = split_at c p in
    if x == c
    then some ([], x ∷ p)
    else elim rest [ none ↦ none | some (before, from) ↦ some (x ∷ before, from) ]

pub strip-append : (w p : Bytes) → strip w (w ++ p) ≡ some p
strip-append [] p = refl
strip-append (x ∷ w) p = ground (arith, strip-append w p)
