-- ===== src/Prelude/Slices.antt =====
-- The string methods that take a text apart: split, slice at a separator, startsWith, includes.
use Prim.Native.Nat.{ℕ, zero, suc}
use mathlib.Core.Bool.{Bool, true, false, ◌&&◌, ◌||◌}
use mathlib.Core.List.{List, [], ◌∷◌, reverse}
use hy_fib_wa_app.Prelude.Tests.{◌==◌, if◌then◌else◌}
use hy_fib_wa_app.Prelude.Units.{Text}

-- Puts a unit before the first of some parts.
unfoldable pub extend : ℕ → List Text → List Text
extend c [] = (c ∷ []) ∷ []
extend c (part ∷ parts) = (c ∷ part) ∷ parts

-- `s.split(separator)`, for a separator of one unit.
unfoldable pub split_on : ℕ → Text → List Text
unfolding extend
split_on separator [] = [] ∷ []
split_on separator (c ∷ s) =
    let parts = split_on separator s in if c == separator then [] ∷ parts else extend c parts

-- `s.split(ab)`, for a separator of the two units `a` and `b`.
unfoldable pub split_on_pair : ℕ → ℕ → Text → List Text
unfolding extend
split_on_pair a b [] = [] ∷ []
split_on_pair a b (c ∷ []) = (c ∷ []) ∷ []
split_on_pair a b (c ∷ d ∷ s) =
    let parted = [] ∷ split_on_pair a b s in
    let longer = extend c (split_on_pair a b (d ∷ s)) in if c == a && d == b then parted else longer

-- The text up to the first `separator`, whole if it has none.
unfoldable pub until : ℕ → Text → Text
until separator [] = []
until separator (c ∷ s) = if c == separator then [] else c ∷ until separator s

unfoldable pub has_unit : ℕ → Text → Bool
has_unit unit [] = false
has_unit unit (c ∷ s) = c == unit || has_unit unit s

-- The text up to and with its last `separator`, and what comes after.
unfoldable pub split_last : ℕ → Text → Text × Text
unfolding has_unit
split_last separator [] = ([], [])
split_last separator (c ∷ s) =
    let (before, after) = split_last separator s in
    if has_unit separator s || c == separator then (c ∷ before, after) else ([], c ∷ s)

-- `s.startsWith(prefix)`
unfoldable pub has_prefix : Text → Text → Bool
has_prefix [] s = true
has_prefix (p ∷ prefix) [] = false
has_prefix (p ∷ prefix) (c ∷ s) = p == c && has_prefix prefix s

-- `s.includes(part)`
unfoldable pub has_part : Text → Text → Bool
unfolding has_prefix
has_part part [] = has_prefix part []
has_part part (c ∷ s) = has_prefix part (c ∷ s) || has_part part s

-- `s.endsWith(suffix)`
unfoldable pub has_suffix : Text → Text → Bool
unfolding has_prefix
has_suffix suffix s = has_prefix (reverse suffix) (reverse s)

-- `s.slice(n)`
unfoldable pub drop : ℕ → Text → Text
drop zero s = s
drop (suc n) [] = []
drop (suc n) (c ∷ s) = drop n s
