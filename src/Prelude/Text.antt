-- ===== src/Prelude/Text.antt =====
-- A `str` is its bytes. UTF-8 validity is the standard library's `String::from_utf8`.
use factbook_rs.Prelude.Decide.{ltb, leb, ◌==◌, if◌then◌else◌}
use factbook_rs.Prelude.Lists.{all}
use Prim.Native.Nat.{ℕ, zero, suc, ◌+◌, ◌-◌, ◌*◌}
use Prim.Native.Char.{code}
use Prim.Native.String.{String}
use mathlib.Core.Path.{◌≡◌}
use mathlib.Core.Logic.{◌↔◌}
use mathlib.Core.Bool.{Bool, true, false, ◌&&◌, ◌||◌}
use mathlib.Core.Option.{Option, none, some}
use mathlib.Core.List.{List, [], ◌∷◌, map}
use native.Mathlib.Omega.{arith}

-- the bytes of a text
abbrev pub Text : Type 0
Text = List ℕ

-- The code points of a literal, which are its bytes if it is ASCII.
abbrev pub codes : String → Text
codes String.[] = []
codes (String.◌∷◌ c s) = code c ∷ codes s

unfoldable pub text_eq : Text → Text → Bool
text_eq [] [] = true
text_eq (x ∷ xs) (y ∷ ys) = x == y && text_eq xs ys
text_eq _ _ = false

pub text_eq_iff : (a b : Text) → (text_eq a b ≡ true) ↔ (a ≡ b)
unfolding text_eq
text_eq_iff (x ∷ a) (y ∷ b) = ground (arith, text_eq_iff a b)
text_eq_iff _ _ = ground arith

abbrev pub within : ℕ → ℕ → ℕ → Bool
within lo hi b = leb lo b && leb b hi

-- `char::is_whitespace`
abbrev pub is_whitespace : ℕ → Bool
is_whitespace c =
    within 9 13 c
    || c == 0x20
    || c == 0x85
    || c == 0xa0
    || c == 0x1680
    || within 0x2000 0x200a c
    || within 0x2028 0x2029 c
    || c == 0x202f
    || c == 0x205f
    || c == 0x3000

-- How many continuation bytes are due behind a byte, and the range of the first of them; `none` is
-- an invalid byte.
abbrev expects : ℕ → ℕ → ℕ → ℕ → Option (ℕ × ℕ × ℕ)
expects zero lo hi b =
    if ltb b 0x80
    then some (0, 0x80, 0xbf)
    else if within 0xc2 0xdf b
    then some (1, 0x80, 0xbf)
    else if within 0xe0 0xef b
    then some (2, if b == 0xe0 then 0xa0 else 0x80, if b == 0xed then 0x9f else 0xbf)
    else if within 0xf0 0xf4 b
    then some (3, if b == 0xf0 then 0x90 else 0x80, if b == 0xf4 then 0x8f else 0xbf)
    else none
expects (suc need) lo hi b = if within lo hi b then some (need, 0x80, 0xbf) else none

unfoldable pub utf8_from : ℕ → ℕ → ℕ → Text → Bool
utf8_from need lo hi [] = need == 0
utf8_from need lo hi (b ∷ bs) = elim (expects need lo hi b) [
  | none ↦ false
  | some (n, l, h) ↦ utf8_from n l h bs
]

-- `String::from_utf8(bytes).is_ok()`
unfoldable pub is_utf8 : Text → Bool
unfolding utf8_from
is_utf8 = utf8_from 0 0x80 0xbf

-- `str::is_ascii`
unfoldable pub is_ascii : Text → Bool
is_ascii = all (λ b. ltb b 0x80)

abbrev pub ascii_lowercase : ℕ → ℕ
ascii_lowercase b = if within b'A' b'Z' b then b + 32 else b

-- `str::to_ascii_lowercase`
unfoldable pub to_ascii_lowercase : Text → Text
to_ascii_lowercase = map ascii_lowercase

-- the code point so far, behind a byte
abbrev scalar : ℕ → ℕ → ℕ → ℕ
scalar zero acc b =
    if ltb b 0x80
    then b
    else if ltb b 0xe0
    then b - 0xc0
    else if ltb b 0xf0
    then b - 0xe0
    else b - 0xf0
scalar (suc need) acc b = acc * 64 + (b - 0x80)

abbrev due : ℕ → ℕ → ℕ
due zero b = if ltb b 0x80 then 0 else if ltb b 0xe0 then 1 else if ltb b 0xf0 then 2 else 3
due (suc need) b = need

-- `str::chars`, on valid UTF-8
unfoldable pub chars_from : ℕ → ℕ → Text → List ℕ
chars_from need acc [] = []
chars_from need acc (b ∷ bs) =
    let rest = chars_from (due need b) (scalar need acc b) bs in
    if due need b == 0 then scalar need acc b ∷ rest else rest

unfoldable pub chars : Text → List ℕ
unfolding chars_from
chars = chars_from 0 0
