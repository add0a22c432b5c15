-- ===== src/Prelude/Text.antt =====
-- What the program uses of Python's `str`: `strip`, prefixes, and the first colon.
use Prim.Native.Nat.{ℕ}
use Prim.Native.Char.{code}
use Prim.Native.String.{String, [], ◌∷◌}
use mathlib.Core.Path.{◌≡◌, refl}
use mathlib.Core.Bool.{Bool, true, false, ◌&&◌, ◌||◌}
use aize.Prelude.Tests.{if◌then◌else◌, leb, nat_beq}

-- `str.isspace` of one code point.
unfoldable pub is_space : ℕ → Bool
is_space c =
    (leb 9 c && leb c 13)
    || (leb 28 c && leb c 32)
    || nat_beq c 133
    || nat_beq c 160
    || nat_beq c 5760
    || (leb 8192 c && leb c 8202)
    || nat_beq c 8232
    || nat_beq c 8233
    || nat_beq c 8239
    || nat_beq c 8287
    || nat_beq c 12288

unfoldable pub lstrip : String → String
lstrip [] = []
lstrip (c ∷ s) = let rest = lstrip s in if is_space (code c) then rest else c ∷ s

-- `rstrip` drops a character when it and all after it are white.
unfoldable pub rstrip : String → String
rstrip [] = []
rstrip (c ∷ s) = elim (rstrip s) [
  | [] ↦ if is_space (code c) then [] else c ∷ []
  | d ∷ t ↦ c ∷ d ∷ t
]

unfoldable pub strip : String → String
unfolding lstrip rstrip is_space
strip s = rstrip (lstrip s)

-- `raw.startswith(prefix)`
unfoldable pub starts_with : String → String → Bool
starts_with [] raw = true
starts_with (c ∷ prefix) [] = false
starts_with (c ∷ prefix) (d ∷ raw) = nat_beq (code c) (code d) && starts_with prefix raw

-- `":" in raw`
unfoldable pub has_colon : String → Bool
has_colon [] = false
has_colon (c ∷ raw) = nat_beq (code c) 58 || has_colon raw

-- `raw.split(":", 1)[1]` of a text with a colon
unfoldable pub after_colon : String → String
after_colon [] = ""
after_colon (c ∷ raw) = let rest = after_colon raw in if nat_beq (code c) 58 then raw else rest

abc : strip "  ab c\n" ≡ "ab c"
unfolding strip
abc = refl
