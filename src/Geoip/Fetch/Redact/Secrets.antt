-- ===== src/Geoip/Fetch/Redact/Secrets.antt =====
-- A refused URL with a userinfo of no slash and no question mark: what the log says of it.
use factbook_rs.Geoip.Fetch.Redact.{
  scheme_end, split_pattern, split_find, split, without_user, unparsed, name_of, shown, loggable,
}
use factbook_rs.Prelude.Parse.{strip_prefix, split_once, rsplit_once}
use factbook_rs.Prelude.Text.{Text}
use factbook_rs.Prelude.{
  ℕ, ◌≡◌, refl, ap, Bool, true, false, not, ◌&&◌, Option, none, some, List, [], ◌∷◌, ◌++◌, map, all,
  ◌==◌, ==_iff, and_true, arith,
}

-- a text without a byte
abbrev pub lacks : ℕ → Text → Bool
lacks at text = all (λ b. not (b == at)) text

differs : (a b : ℕ) → not (a == b) ≡ true → (a == b) ≡ false
differs a b h = ground arith

same : (a : ℕ) → (a == a) ≡ true
same a = ground arith

split_once-append :
    (at : ℕ) (front back : Text)
    → lacks at front ≡ true
    → split_once at (front ++ at ∷ back) ≡ some (front, back)
unfolding split_once
split_once-append at [] back h = rw (same at) refl
split_once-append at (b ∷ front) back h =
    let parts = and_true _ _ h in
    rw (differs b at parts.0, split_once-append at front back parts.1) refl

rsplit_once-lacks : (at : ℕ) (text : Text) → lacks at text ≡ true → rsplit_once at text ≡ none
unfolding rsplit_once
rsplit_once-lacks at [] h = refl
rsplit_once-lacks at (b ∷ text) h =
    let parts = and_true _ _ h in rw (rsplit_once-lacks at text parts.1, differs b at parts.0) refl

rsplit_once-append :
    (at : ℕ) (front back : Text)
    → lacks at back ≡ true
    → rsplit_once at (front ++ at ∷ back) ≡ some (front, back)
unfolding rsplit_once
rsplit_once-append at [] back h = rw (rsplit_once-lacks at back h, same at) refl
rsplit_once-append at (b ∷ front) back h = rw (rsplit_once-append at front back h) refl

-- an authority, and a path that is empty or begins at a slash
abbrev pub IsPath : ℕ → Text → Type 0
IsPath at [] = Unit
IsPath at (b ∷ text) = b ≡ at

split_find-append :
    (at : ℕ) (front back : Text)
    → lacks at front ≡ true
    → IsPath at back
    → split_find at (front ++ back) ≡ (front, back)
unfolding split_find
split_find-append at [] [] h p = refl
split_find-append at [] (b ∷ back) h p = rw ((==_iff b at).1 p) refl
split_find-append at (b ∷ front) back h p =
    let parts = and_true _ _ h in
    rw (differs b at parts.0, split_find-append at front back parts.1 p) refl

no_scheme_end :
    (b : ℕ) (text : Text) → not (b == b':') ≡ true → strip_prefix scheme_end (b ∷ text) ≡ none
unfolding strip_prefix
no_scheme_end b text h = rw (differs b b':' h) refl

split_pattern-append :
    (scheme back : Text)
    → lacks b':' scheme ≡ true
    → split_pattern scheme_end (scheme ++ (scheme_end ++ back)) ≡ some (scheme, back)
unfolding split_pattern strip_prefix
split_pattern-append [] back h = refl
split_pattern-append (b ∷ scheme) back h =
    let parts = and_true _ _ h in
    rw
      (
        split_pattern-append scheme back parts.1,
        no_scheme_end b (scheme ++ (scheme_end ++ back)) parts.0,
      )
      refl

lacks-append :
    (at : ℕ) (a b : Text) → lacks at a ≡ true → lacks at b ≡ true → lacks at (a ++ b) ≡ true
lacks-append at [] b h k = k
lacks-append at (x ∷ a) b h k =
    let parts = and_true (not (x == at)) (lacks at a) h in
    rw (parts.0, lacks-append at a b parts.1 k) refl

-- the parts of a URL with a userinfo
pub record Parts : Type 0 where
  pub scheme : Text
  pub host : Text
  pub path : Text

abbrev pub spelled : Parts → Text → Text → Text
spelled p user query =
    (p.scheme ++ (scheme_end ++ ((user ++ b'@' ∷ p.host) ++ p.path))) ++ b'?' ∷ query

pub record IsSpelled (p : Parts) (user : Text) : Type 0 where
  pub scheme : (lacks b':' p.scheme && lacks b'?' p.scheme) ≡ true
  pub host : (lacks b'@' p.host && (lacks b'/' p.host && lacks b'?' p.host)) ≡ true
  pub begins : IsPath b'/' p.path
  pub path : lacks b'?' p.path ≡ true
  pub before : (lacks b'/' user && lacks b'?' user) ≡ true

without_user-spelled :
    (p : Parts) (user : Text)
    → IsSpelled p user
    → without_user (p.scheme ++ (scheme_end ++ ((user ++ b'@' ∷ p.host) ++ p.path)))
      ≡ p.scheme ++ scheme_end ++ p.host ++ p.path
unfolding without_user
without_user-spelled p user h =
    let scheme = and_true _ _ h.scheme in
    let host = and_true _ _ h.host in
    let slashes = and_true _ _ host.1 in
    let user_ = and_true _ _ h.before in
    rw
      (
        split_pattern-append p.scheme ((user ++ b'@' ∷ p.host) ++ p.path) scheme.0,
        split_find-append b'/' (user ++ b'@' ∷ p.host) p.path
            (lacks-append b'/' user (b'@' ∷ p.host) user_.0 slashes.0) h.begins,
        rsplit_once-append b'@' user p.host host.0,
        without_user,
      )
      refl

unparsed-spelled :
    (p : Parts) (user query : Text)
    → IsSpelled p user
    → unparsed (spelled p user query) ≡ (p.scheme ++ scheme_end ++ p.host ++ p.path, some query)
unfolding unparsed
unparsed-spelled p user query h =
    let scheme = and_true _ _ h.scheme in
    let host = and_true _ _ (and_true _ _ h.host).1 in
    let user_ = and_true _ _ h.before in
    rw
      (
        split_once-append b'?' (p.scheme ++ (scheme_end ++ ((user ++ b'@' ∷ p.host) ++ p.path)))
            query
            (lacks-append b'?' p.scheme (scheme_end ++ ((user ++ b'@' ∷ p.host) ++ p.path)) scheme.1
              (lacks-append b'?' (user ++ b'@' ∷ p.host) p.path
                (lacks-append b'?' user (b'@' ∷ p.host) user_.1 host.1) h.path)),
        without_user-spelled p user h,
        unparsed,
      )
      refl

-- the names of the parameters of a query
abbrev pub names : Text → List Text
names query = map name_of (split b'&' query)

shown-names :
    (mark : ℕ) (ps qs : List Text) → map name_of ps ≡ map name_of qs → shown mark ps ≡ shown mark qs
unfolding shown
shown-names mark [] [] e = refl
shown-names mark (p ∷ ps) [] e = cc
shown-names mark [] (q ∷ qs) e = cc
shown-names mark (p ∷ ps) (q ∷ qs) e =
    let first : name_of p ≡ name_of q = cc in
    let others : map name_of ps ≡ map name_of qs = cc in
    rw (first, shown-names b'&' ps qs others) refl

-- Of a URL that the parser refuses, spelled `scheme://user@host/path?query` with no slash and no
-- question mark in the userinfo (nor in the host, where there is no `@` either; no colon and no
-- question mark in the scheme, and no question mark in the path, which is empty or begins at the
-- slash), the log shows nothing but the scheme, the host, the path and the names of the parameters:
-- two of them that differ in the userinfo and the values of the query alone are logged as the same
-- text.
pub loggable-spelled :
    (parse : Text → Option (Text × Option Text)) (p : Parts) (user user' query query' : Text)
    → parse (spelled p user query) ≡ none
    → parse (spelled p user' query') ≡ none
    → IsSpelled p user
    → IsSpelled p user'
    → names query ≡ names query'
    → loggable parse (spelled p user query) ≡ loggable parse (spelled p user' query')
unfolding loggable
loggable-spelled parse p user user' query query' e e' h h' n =
    rw (e, e', unparsed-spelled p user query h, unparsed-spelled p user' query' h')
      (ap (λ s. (p.scheme ++ scheme_end ++ p.host ++ p.path) ++ s)
        (shown-names b'?' (split b'&' query) (split b'&' query') n))
