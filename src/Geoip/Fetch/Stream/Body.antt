-- ===== src/Geoip/Fetch/Stream/Body.antt =====
-- The body of one response: what the part file holds once it is received.
use factbook_rs.Geoip.Download.Error.{Result, ok, err}
use factbook_rs.Geoip.Fetch.Stream.{
  Taken, all_taken, over_limit, write_failed, take_chunks, is_short, conclude, conclude_taken,
  receive,
}
use factbook_rs.Geoip.Fetch.Transfer.{Response, World}
use factbook_rs.Geoip.Fetch.Writer.{PartWriter, new_writer, write, finish}
use factbook_rs.Geoip.Fetch.Writer.Whole.{IsAt, write-IsAt, finish-some, new_writer-IsAt}
use factbook_rs.Prelude.Text.{Text}
use factbook_rs.Prelude.{
  ℕ, ◌+◌, ◌≤◌, ◌<◌, ◌≡◌, refl, ap, Bool, true, false, not, Option, none, some, List, [], ◌∷◌, ◌++◌,
  append-nil, append_assoc, arith, ltb, ltb→ge, ◌==◌, length, length-append, saturating_add,
  u64_max, Bool-cases, inl, inr,
}

-- the chunks of a body, together
abbrev pub joined : List Text → Text
joined [] = []
joined (chunk ∷ chunks) = chunk ++ joined chunks

-- a part file within the ceiling
abbrev pub Fits : ℕ → Option Text → Type 0
Fits limit none = Unit
Fits limit (some part) = length part ≤ limit

abbrev IsTaken : ℕ → Text → Taken → Type 0
IsTaken limit whole (all_taken writer written) =
    IsAt whole writer × (written ≡ length whole) × (length whole ≤ limit)
IsTaken limit whole over_limit = Unit
IsTaken limit whole write_failed = Unit

-- one chunk, on what the chunks behind it come to
chunk-IsTaken :
    (world : World) (limit : ℕ) (writer : PartWriter) (so_far chunk : Text) (chunks : List Text)
    → limit < u64_max
    → IsAt so_far writer
    → ((more : PartWriter)
        → length (so_far ++ chunk) ≤ limit
        → IsAt (so_far ++ chunk) more
        → IsTaken limit
            ((so_far ++ chunk) ++ joined chunks)
            (take_chunks world limit more (length (so_far ++ chunk)) chunks))
    → IsTaken limit
        (so_far ++ (chunk ++ joined chunks))
        (take_chunks world limit writer (length so_far) (chunk ∷ chunks))
unfolding take_chunks
chunk-IsTaken world limit writer so_far chunk chunks top at next =
    elim (Bool-cases (ltb limit (saturating_add (length so_far) (length chunk)))) [
      | inl over ↦ rw over tt
      | inr within ↦ rw within (
          go (ltb→ge limit (saturating_add (length so_far) (length chunk)) within)
            (write world.write_all writer chunk)
            (write-IsAt world.write_all writer chunk so_far at))
    ]
  where
    room : saturating_add (length so_far) (length chunk) ≤ limit → length (so_far ++ chunk) ≤ limit
    room inside = omega (arith, length-append so_far chunk)

    go :
        saturating_add (length so_far) (length chunk) ≤ limit
        → (s : PartWriter × Bool) → (s.1 ≡ true → IsAt (so_far ++ chunk) s.0)
        → IsTaken limit (so_far ++ (chunk ++ joined chunks)) (elim s.1 [
          | true ↦ take_chunks world limit s.0 (length so_far + length chunk) chunks
          | false ↦ write_failed
        ])
    go inside (more, true) h =
        rw (← length-append so_far chunk, ← append_assoc so_far chunk (joined chunks))
          (next more (room inside) (h refl))
    go inside (more, false) h = tt

take_chunks-IsTaken :
    (world : World) (limit : ℕ) (writer : PartWriter) (so_far : Text) (chunks : List Text)
    → limit < u64_max
    → length so_far ≤ limit
    → IsAt so_far writer
    → IsTaken limit
        (so_far ++ joined chunks)
        (take_chunks world limit writer (length so_far) chunks)
unfolding take_chunks
take_chunks-IsTaken world limit writer so_far [] top fits at =
    rw (append-nil so_far) (at, refl, fits)
take_chunks-IsTaken world limit writer so_far (chunk ∷ chunks) top fits at =
    chunk-IsTaken world limit writer so_far chunk chunks top at (λ more room there.
      take_chunks-IsTaken world limit more (so_far ++ chunk) chunks top room there)

-- A success has the whole body in the part file, behind what it held, and counts its bytes.
abbrev pub IsDelivered : Text → Bool → Option ℕ → Option Text → Result ℕ → Type 0
IsDelivered whole ends expected part (ok written) =
    (part ≡ some whole)
    × (written ≡ length whole)
    × (ends ≡ true)
    × (is_short expected written ≡ false)
IsDelivered whole ends expected part (err e) = Unit

conclude-IsDelivered :
    (url : Text) (ends : Bool) (expected : Option ℕ) (written limit : ℕ) (part : Option Text)
    (whole : Text)
    → ((file : Text) → part ≡ some file → file ≡ whole)
    → written ≡ length whole
    → length whole ≤ limit
    → Fits limit (conclude url ends expected written part).0
      × IsDelivered whole ends expected
          (conclude url ends expected written part).0
          (conclude url ends expected written part).1
unfolding conclude
conclude-IsDelivered url false expected written limit none whole p n l = (tt, tt)
conclude-IsDelivered url false expected written limit (some part) whole p n l =
    (rw (p part refl) l, tt)
conclude-IsDelivered url true expected written limit none whole p n l = (tt, tt)
conclude-IsDelivered url true none written limit (some part) whole p n l =
    (rw (p part refl) l, (ap some (p part refl), n, refl, refl))
conclude-IsDelivered url true (some e) written limit (some part) whole p n l =
    elim (Bool-cases (written == e)) [
      | inl same ↦ rw same (rw (p part refl) l, (ap some (p part refl), n, refl, ap not same))
      | inr other ↦ rw other (rw (p part refl) l, tt)
    ]

pub receive-IsDelivered :
    (world : World) (url : Text) (limit : ℕ) (response : Response) (expected : Option ℕ)
    (file : Text)
    → limit < u64_max
    → length file ≤ limit
    → (let done = receive world url limit response expected (length file) file in
        Fits limit done.0
        × IsDelivered (file ++ joined response.chunks) response.ends expected done.0 done.1)
unfolding receive conclude_taken
receive-IsDelivered world url limit response expected file top fits =
    go (take_chunks world limit (new_writer file) (length file) response.chunks) (
      take_chunks-IsTaken world limit (new_writer file) file response.chunks top fits
        (new_writer-IsAt file))
  where
    whole : Text
    whole = file ++ joined response.chunks

    go :
        (t : Taken)
        → IsTaken limit whole t
        → (let done = conclude_taken world url limit response expected t in
            Fits limit done.0 × IsDelivered whole response.ends expected done.0 done.1)
    go (all_taken writer written) h =
        conclude-IsDelivered url response.ends expected written limit
          (finish world.write_all writer) whole
          (λ f e. finish-some world.write_all writer whole f h.0 e) h.1 h.2
    go over_limit h = (tt, tt)
    go write_failed h = (tt, tt)
