-- ===== src/Geoip/Fetch/Writer.antt =====
-- src/geoip/download/fetch.rs, `PartWriter`: a file that is written in batches, one of them in
-- flight at a time. What becomes of a batch that is written to a file is a parameter.
pub mod Whole
use factbook_rs.Prelude.Text.{Text}
use factbook_rs.Prelude.{
  ℕ, ◌*◌, Bool, true, false, Option, none, some, List, [], ◌∷◌, ◌++◌, leb, ltb, if◌then◌else◌,
  length,
}

abbrev pub write_batch_bytes : ℕ
write_batch_bytes = 1024 * 1024

-- The batch is in the file; the write failed, and the file holds what is stated; or the file went
-- with a task that never returned.
pub data Landing : Type 0 where
  landed : Landing
  failed : Text → Landing
  lost : Landing

-- what a finished write hands back
pub record Handed : Type 0 where
  pub file : Text
  pub spare : Text
  pub is_ok : Bool

-- `pending` holds none for a task that did not complete.
pub record PartWriter : Type 0 where
  pub file : Option Text
  pub pending : Option (Option Handed)
  pub gathered : Text
  pub spare : Text

unfoldable pub new_writer : Text → PartWriter
new_writer file = record { file = some file; pending = none; gathered = []; spare = [] }

-- the task that writes a batch, and empties it
unfoldable pub hand : (Text → Text → Landing) → Text → Text → Option Handed
hand write_all file batch = elim (write_all file batch) [
  | landed ↦ some (record { file = file ++ batch; spare = []; is_ok = true })
  | failed holds ↦ some (record { file = holds; spare = []; is_ok = false })
  | lost ↦ none
]

-- The operations return the writer and whether they succeeded.
unfoldable pub settle : PartWriter → PartWriter × Bool
settle w = elim w.pending [
  | none ↦ (w, true)
  | some none ↦ (record w { pending = none }, false)
  | some (some done) ↦
      (record w { pending = none; file = some done.file; spare = done.spare }, done.is_ok)
]

-- `?`: what stands behind it runs on the writer, and a failure is passed on
abbrev pub and_then : PartWriter × Bool → (PartWriter → PartWriter × Bool) → PartWriter × Bool
and_then (w, true) next = next w
and_then (w, false) next = (w, false)

abbrev pub send_settled : (Text → Text → Landing) → PartWriter → Option Text → PartWriter × Bool
send_settled write_all w none = (w, false)
send_settled write_all w (some file) = (
  record {
    file = none;
    pending = some (hand write_all file w.gathered);
    gathered = w.spare;
    spare = [];
  },
  true,
)

unfoldable pub send : (Text → Text → Landing) → PartWriter → PartWriter × Bool
unfolding settle hand
send write_all w = and_then (settle w) (λ idle. send_settled write_all idle idle.file)

unfoldable pub write : (Text → Text → Landing) → PartWriter → Text → PartWriter × Bool
unfolding send
write write_all w chunk =
    let more = record w { gathered = w.gathered ++ chunk } in
    if leb write_batch_bytes (length more.gathered) then send write_all more else (more, true)

abbrev pub file_if : PartWriter × Bool → Option Text
file_if (w, true) = w.file
file_if (w, false) = none

-- The file as `finish` leaves it, or none if it fails.
unfoldable pub finish : (Text → Text → Landing) → PartWriter → Option Text
unfolding send settle
finish write_all w =
    let sent = if ltb 0 (length w.gathered) then send write_all w else (w, true) in
    file_if (and_then sent settle)
