-- ===== src/Geoip/Fetch/Redact.antt =====
-- src/geoip/download/fetch.rs, `loggable` and `unparsed`: the text of a URL that is safe to log.
-- What the URL parser makes of it is a parameter: the text without user, query and fragment, and
-- the query.
pub mod Secrets
use factbook_rs.Prelude.Parse.{strip_prefix, split_once, rsplit_once}
use factbook_rs.Prelude.Text.{Text, codes}
use factbook_rs.Prelude.{
  ℕ, Bool, true, false, Option, none, some, List, [], ◌∷◌, ◌++◌, ◌==◌, if◌then◌else◌,
}

abbrev pub redacted : Text
redacted = codes "<redacted>"

abbrev pub scheme_end : Text
scheme_end = codes "://"

-- `unwrap_or`, on the halves of a text
abbrev pub halves_or : Option (Text × Text) → Text × Text → Text × Text
halves_or none other = other
halves_or (some halves) other = halves

abbrev or_further : Option Text → ℕ → Option (Text × Text) → Option (Text × Text)
or_further (some back) b rest = some ([], back)
or_further none b (some (front, back)) = some (b ∷ front, back)
or_further none b none = none

-- `split_once` at a pattern
unfoldable pub split_pattern : Text → Text → Option (Text × Text)
split_pattern pattern [] = none
split_pattern pattern (b ∷ text) =
    or_further (strip_prefix pattern (b ∷ text)) b (split_pattern pattern text)

-- `split_at` the first such byte, or at the end
unfoldable pub split_find : ℕ → Text → Text × Text
split_find at [] = ([], [])
split_find at (b ∷ text) =
    let rest = split_find at text in if b == at then ([], b ∷ text) else (b ∷ rest.0, rest.1)

abbrev first_piece : ℕ → List Text → List Text
first_piece b [] = (b ∷ []) ∷ []
first_piece b (piece ∷ pieces) = (b ∷ piece) ∷ pieces

-- `str::split` at a byte
unfoldable pub split : ℕ → Text → List Text
split at [] = [] ∷ []
split at (b ∷ text) = let rest = split at text in if b == at then [] ∷ rest else first_piece b rest

-- the base without its userinfo
unfoldable pub without_user : Text → Text
unfolding split_pattern split_find
without_user base = elim (split_pattern scheme_end base) [
  | some (scheme, rest) ↦
      let halves = split_find b'/' rest in
      scheme ++ scheme_end ++ (halves_or (rsplit_once b'@' halves.0) ([], halves.0)).1 ++ halves.1
  | none ↦ (halves_or (rsplit_once b'@' base) ([], base)).1
]

unfoldable pub unparsed : Text → Text × Option Text
unfolding without_user
unparsed url = elim (split_once b'?' url) [
  | some (base, query) ↦ (without_user base, some query)
  | none ↦ (without_user url, none)
]

-- the name of a parameter
unfoldable pub name_of : Text → Text
name_of pair = (halves_or (split_once b'=' pair) (pair, [])).0

-- the parameters in the log, the first of them behind `?`
unfoldable pub shown : ℕ → List Text → Text
unfolding name_of
shown mark [] = []
shown mark (pair ∷ pairs) = mark ∷ name_of pair ++ b'=' ∷ redacted ++ shown b'&' pairs

abbrev safe_and_query : Option (Text × Option Text) → Text × Option Text → Text × Option Text
safe_and_query none other = other
safe_and_query (some parsed) other = parsed

abbrev pub with_query : Text × Option Text → Text
with_query (safe, none) = safe
with_query (safe, some query) = safe ++ shown b'?' (split b'&' query)

unfoldable pub loggable : (Text → Option (Text × Option Text)) → Text → Text
unfolding unparsed shown split
loggable parse url = with_query (safe_and_query (parse url) (unparsed url))
