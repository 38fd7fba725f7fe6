-- ===== src/Tests/Transfers.antt =====
-- The theorems on the download path applied: a file with a published digest, fetched in two parts.
use factbook_rs.Geoip.Fetch.Materialise.{Tools, Disk, materialise_guarded}
use factbook_rs.Geoip.Fetch.Materialise.Replaces.{
  IsMaterialised, materialise_guarded-IsMaterialised,
}
use factbook_rs.Geoip.Fetch.Redact.{loggable}
use factbook_rs.Geoip.Fetch.Redact.Secrets.{Parts, spelled, loggable-spelled}
use factbook_rs.Geoip.Fetch.Redact
use factbook_rs.Geoip.Fetch.Run.{Machine, free, fetch}
use factbook_rs.Geoip.Fetch.Run.Safe.{IsFetched, fetch-IsFetched}
use factbook_rs.Geoip.Fetch.Transfer.{gzip, anonymous, Transfer, Response, World}
use factbook_rs.Geoip.Fetch.Writer.{landed}
use factbook_rs.Geoip.Download.Guard.Admit.{Guard}
use factbook_rs.Geoip.Download.Guard.Probe.{city, csv, Reader, probe, answers, paths_of}
use factbook_rs.Geoip.Download.Guard.Answered.{HasAnswer, probe-HasAnswer}
use factbook_rs.Prelude.Parse.{split_once, strip_prefix, rsplit_once}
use factbook_rs.Prelude.Text.{Text, codes, text_eq, chars, chars_from}
use factbook_rs.Prelude.{ℕ, ◌≡◌, refl, true, Option, none, some, [], ◌∷◌, arith, if◌then◌else◌}

-- thirty-two bytes, and their text as a digest
abbrev eight : ℕ → Text → Text
eight b text = b ∷ b ∷ b ∷ b ∷ b ∷ b ∷ b ∷ b ∷ text

abbrev digest : Text
digest = eight 0 (eight 0 (eight 0 (eight 0 [])))

abbrev digest_text : Text
digest_text =
    eight 48
      (eight 48 (eight 48 (eight 48 (eight 48 (eight 48 (eight 48 (eight 48 (codes " file"))))))))

-- the rest of the file, the whole of it, and its digest
abbrev answer : Text → ℕ → Option Response
answer url from =
    if text_eq url (codes "sum")
    then some (record {
      status = 200;
      retry_after = none;
      content_length = none;
      chunks = digest_text ∷ [];
      ends = true;
    })
    else some (record {
      status = 206;
      retry_after = none;
      content_length = some 2;
      chunks = (67 ∷ []) ∷ (68 ∷ []) ∷ [];
      ends = true;
    })

abbrev world : World
world = record {
  parse = λ url. none;
  answer = answer;
  opens = true;
  write_all = λ file batch. landed;
}

abbrev transfer : Transfer
transfer = record {
  url = codes "file";
  fallback_url = none;
  checksum_url = some (codes "sum");
  dest = codes "table.csv";
  archive = gzip;
  format = csv;
  credential = anonymous;
}

abbrev tools : Tools
tools = record {
  gunzip = λ file. record { bytes = 97 ∷ 44 ∷ file; ends = true };
  entries = λ file. none;
  open_reader = λ file. none;
  creates_staged = true;
  flushes = true;
  renames_part = true;
  opens_staged = true;
  sizes_staged = true;
  syncs = true;
  renames_staged = true;
}

abbrev machine : Machine
machine = record {
  world = world;
  tools = tools;
  sha256 = λ file. digest;
  creates_directory = true;
  opens_lock = true;
  reads_part = true;
  lock = free;
}

abbrev guard : Guard
guard = record { probe_of = none; table = none; min_size_percent = 50 }

-- two bytes are there already, and an older copy
abbrev disk : Disk
disk = record { part = some (65 ∷ 66 ∷ []); staged = none; dest = some (codes "old") }

materialise_guarded-IsMaterialised_example :
    (let done =
        materialise_guarded tools guard transfer.dest transfer.archive transfer.format disk in
      IsMaterialised tools guard transfer.dest transfer.archive transfer.format
        (65 ∷ 66 ∷ [])
        disk.dest
        done.0
        done.1)
materialise_guarded-IsMaterialised_example =
    materialise_guarded-IsMaterialised tools guard transfer.dest transfer.archive transfer.format
      (65 ∷ 66 ∷ []) disk refl

fetch-IsFetched_example :
    (let end = fetch machine guard 1000 (some 60) transfer disk in
      IsFetched machine guard transfer disk end.0 end.1)
fetch-IsFetched_example =
    fetch-IsFetched machine guard 1000 (some 60) transfer disk (omega arith) (omega arith)

-- a database that answers the first address of the probe
abbrev reader : Reader
reader = λ address. some (λ path. some (codes "US"))

probe-HasAnswer_example : (opened : Reader) × (some reader ≡ some opened) × HasAnswer opened city
unfolding probe answers paths_of chars chars_from
probe-HasAnswer_example =
    probe-HasAnswer (λ file. some reader) (codes "file") (codes "dest") city refl

abbrev parts : Parts
parts = record { scheme = codes "https"; host = codes "host"; path = codes "/a" }

loggable-spelled_example :
    loggable (λ url. none) (spelled parts (codes "me:secret") (codes "key=one&n=1"))
    ≡ loggable (λ url. none) (spelled parts (codes "you") (codes "key=two&n="))
unfolding Redact.name_of Redact.split split_once
loggable-spelled_example =
    loggable-spelled (λ url. none) parts (codes "me:secret") (codes "you") (codes "key=one&n=1")
      (codes "key=two&n=") refl refl
      (record { scheme = refl; host = refl; begins = refl; path = refl; before = refl })
      (record { scheme = refl; host = refl; begins = refl; path = refl; before = refl }) refl

-- a userinfo with a slash in it is in the log
slash_in_user :
    loggable (λ url. none) (codes "https://u:pa/ss@host/f") ≡ codes "https://u:pa/ss@host/f"
unfolding loggable Redact.unparsed Redact.without_user Redact.split_pattern Redact.split_find
    strip_prefix rsplit_once split_once
slash_in_user = refl
