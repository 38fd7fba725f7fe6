-- ===== src/Prelude/Parse.antt =====
-- The parts of `str` that take a text apart, and `str::parse` of an unsigned number.
use factbook_rs.Prelude.Decide.{leb, ◌==◌, if◌then◌else◌}
use factbook_rs.Prelude.Text.{Text}
use Prim.Native.Nat.{ℕ, ◌+◌, ◌*◌, ◌-◌}
use mathlib.Core.Bool.{Bool, true, false, ◌&&◌}
use mathlib.Core.Option.{Option, none, some}
use mathlib.Core.List.{[], ◌∷◌}

-- `unwrap_or`
abbrev pub or_text : Option Text → Text → Text
or_text none other = other
or_text (some text) other = text

unfoldable pub strip_prefix : Text → Text → Option Text
strip_prefix [] text = some text
strip_prefix (p ∷ prefix) [] = none
strip_prefix (p ∷ prefix) (b ∷ text) = if b == p then strip_prefix prefix text else none

abbrev behind_first : ℕ → Option (Text × Text) → Option (Text × Text)
behind_first b none = none
behind_first b (some (front, back)) = some (b ∷ front, back)

-- `split_once` at a byte
unfoldable pub split_once : ℕ → Text → Option (Text × Text)
split_once at [] = none
split_once at (b ∷ text) = if b == at then some ([], text) else behind_first b (split_once at text)

abbrev or_here : ℕ → ℕ → Text → Option (Text × Text) → Option (Text × Text)
or_here at b text (some (front, back)) = some (b ∷ front, back)
or_here at b text none = if b == at then some ([], text) else none

-- `rsplit_once` at a byte
unfoldable pub rsplit_once : ℕ → Text → Option (Text × Text)
rsplit_once at [] = none
rsplit_once at (b ∷ text) = or_here at b text (rsplit_once at text)

abbrev pub is_digit : ℕ → Bool
is_digit b = leb 48 b && leb b 57

-- the number that some digits go on to, unless it passes the largest of its type
unfoldable pub digits_from : ℕ → ℕ → Text → Option ℕ
digits_from most n [] = some n
digits_from most n (b ∷ text) = elim (is_digit b) [
  | false ↦ none
  | true ↦
      let next = n * 10 + (b - 48) in
      elim (leb next most) [ true ↦ digits_from most next text | false ↦ none ]
]

unfoldable pub some_digits : ℕ → Text → Option ℕ
unfolding digits_from
some_digits most [] = none
some_digits most (b ∷ text) = digits_from most 0 (b ∷ text)

-- a number, and perhaps a plus sign in front
unfoldable pub parse_unsigned : ℕ → Text → Option ℕ
unfolding some_digits
parse_unsigned most [] = none
parse_unsigned most (b ∷ text) =
    if b == 43 then some_digits most text else some_digits most (b ∷ text)
