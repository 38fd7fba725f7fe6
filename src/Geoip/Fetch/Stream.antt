-- ===== src/Geoip/Fetch/Stream.antt =====
-- src/geoip/download/fetch.rs: `stream_from`, `stream_to` and `stream_with_fallback`. Each takes the
-- part file and returns it, none where there is none, with the bytes that it holds or an error.
pub mod Body
pub mod Bounds
use factbook_rs.Geoip.Download.Error.{
  Result, ok, err, http, io, unexpected_status, too_large, truncated,
}
use factbook_rs.Geoip.Fetch.Redact.{loggable}
use factbook_rs.Geoip.Fetch.Transfer.{
  Transfer, Response, World, refused, resume_is_checkable, resumable_offset, is_success,
}
use factbook_rs.Geoip.Fetch.Writer.{PartWriter, new_writer, write, finish}
use factbook_rs.Prelude.Text.{Text}
use factbook_rs.Prelude.{
  ℕ, ◌+◌, Bool, true, false, not, ◌&&◌, Option, none, some, List, [], ◌∷◌, ltb, ◌==◌, if◌then◌else◌,
  length, saturating_add,
}
use factbook_rs.Table.Build.{map_option}
use factbook_rs.Table.Query.{is_some_and}

-- how reading the chunks ends
pub data Taken : Type 0 where
  all_taken : PartWriter → ℕ → Taken
  over_limit : Taken
  write_failed : Taken

-- the loop of `stream_from`, which counts what it has written
unfoldable pub take_chunks : World → ℕ → PartWriter → ℕ → List Text → Taken
unfolding write
take_chunks world limit writer written [] = all_taken writer written
take_chunks world limit writer written (chunk ∷ chunks) =
    if ltb limit (saturating_add written (length chunk))
    then over_limit
    else (let (more, done) = write world.write_all writer chunk in
        elim done [
          | true ↦ take_chunks world limit more (written + length chunk) chunks
          | false ↦ write_failed
        ])

abbrev pub is_short : Option ℕ → ℕ → Bool
is_short expected written = is_some_and expected (λ n. not (written == n))

-- behind the loop: the file as `finish` leaves it
unfoldable pub conclude : Text → Bool → Option ℕ → ℕ → Option Text → Option Text × Result ℕ
conclude url false expected written part = (part, err http)
conclude url true expected written none = (none, err io)
conclude url true none written (some part) = (some part, ok written)
conclude url true (some expected) written (some part) =
    if written == expected
    then (some part, ok written)
    else (some part, err (truncated url expected written))

-- behind the loop, on how it ended
unfoldable pub conclude_taken :
    World → Text → ℕ → Response → Option ℕ → Taken → Option Text × Result ℕ
unfolding finish conclude
conclude_taken world url limit response expected over_limit = (none, err (too_large url limit))
conclude_taken world url limit response expected write_failed = (none, err io)
conclude_taken world url limit response expected (all_taken writer written) =
    conclude url response.ends expected written (finish world.write_all writer)

unfoldable pub receive : World → Text → ℕ → Response → Option ℕ → ℕ → Text → Option Text × Result ℕ
unfolding take_chunks conclude_taken new_writer
receive world url limit response expected carried file =
    conclude_taken world url limit response expected
      (take_chunks world limit (new_writer file) carried response.chunks)

-- the part file opened to append to it, or created
abbrev pub open_part : Bool → Bool → Option Text → Option Text
open_part false resuming part = none
open_part true true part = part
open_part true false part = some []

abbrev pub received :
    World → Text → ℕ → Response → Option ℕ → ℕ → Option Text → Option Text → Option Text × Result ℕ
unfolding receive
received world url limit response expected carried part none = (part, err io)
received world url limit response expected carried part (some file) =
    receive world url limit response expected carried file

-- a response that is a success, on whether it continues the part file
unfoldable pub accept :
    World → Text → ℕ → ℕ → Option Text → Response → Bool → Option Text × Result ℕ
unfolding receive
accept world url resume_from limit part response resuming =
    let carried = if resuming then resume_from else 0 in
    let expected = map_option (λ n. saturating_add n carried) response.content_length in
    if is_some_and expected (λ n. ltb limit n)
    then (none, err (too_large url limit))
    else received world url limit response expected carried part
        (open_part world.opens resuming part)

unfoldable pub stream_from : World → Transfer → Text → ℕ → ℕ → Option Text → Option Text × Result ℕ
unfolding accept refused loggable
stream_from world transfer url resume_from limit part = elim (world.answer url resume_from) [
  | none ↦ (part, err http)
  | some response ↦
      let named = loggable world.parse url in
      if not (is_success response.status)
      then (part, err (refused named response.status response.retry_after transfer.credential))
      else accept world named resume_from limit part response
          (ltb 0 resume_from && response.status == 206)
]

-- whether a result is the refusal with a status
unfoldable pub is_status : ℕ → Result ℕ → Bool
is_status status (err (unexpected_status url other)) = other == status
is_status status _ = false

-- `age` is the part file's, for `resumable_offset`.
unfoldable pub stream_to :
    World → Transfer → Option ℕ → Text → ℕ → Option Text → Option Text × Result ℕ
unfolding stream_from resumable_offset resume_is_checkable is_status
stream_to world transfer age url limit part =
    let (kept, offset) = resumable_offset age part in
    let has_digest = is_some_and transfer.checksum_url (λ url. true) in
    let resume_from = if resume_is_checkable transfer.archive has_digest then offset else 0 in
    let first = stream_from world transfer url resume_from limit kept in
    if is_status 416 first.1 && ltb 0 resume_from
    then stream_from world transfer url 0 limit none
    else first

unfoldable pub stream_with_fallback :
    World → Transfer → Option ℕ → ℕ → Option Text → Option Text × Result ℕ
unfolding stream_to is_status
stream_with_fallback world transfer age limit part =
    let primary = stream_to world transfer age transfer.url limit part in
    elim transfer.fallback_url [
      | none ↦ primary
      | some fallback ↦
          if is_status 404 primary.1
          then stream_to world transfer age fallback limit none
          else primary
    ]
