-- ===== src/Table/ReadCsv/Written.antt =====
-- The CSV reader reads back every document, however the reader cuts it into chunks.
use mathlib.Core.Path.{fun_ext}
use native.Mathlib.Nat.{add-zero}
use factbook_rs.Prelude.{
  Bool, ℕ, ◌+◌, ◌≤◌, ◌≡◌, ◌≢◌, refl, ◌∙◌, sym, ap, List, [], ◌∷◌, ◌++◌, map, All, none, some,
  Option, append-nil, arith, u64_max, false,
}
use factbook_rs.Prelude.Text.{Text}
use factbook_rs.Table.Csv.Document.{
  Document, write_last, write_document, document_records, document_cost, IsDocument, lines_cost,
  records_from, line_after, last_line, Written, IsLine,
}
use factbook_rs.Table.Csv.Lines.{feed-write_lines, between, Settled-false, Holds, finish_row}
use factbook_rs.Table.Csv.{Csv, new, byte, feed, finish, Record}
use factbook_rs.Table.Error.{ok, ◌>>=◌, >>=-assoc}
use factbook_rs.Table.ReadCsv.{feed_chunks, strip_bom, records}

abbrev pub flatten : List Text → Text
flatten [] = []
flatten (t ∷ ts) = t ++ flatten ts

feed-append : (xs ys : Text) (c : Csv) → feed c (xs ++ ys) ≡ (feed c xs >>= λ next. feed next ys)
unfolding feed
feed-append [] ys c = refl
feed-append (x ∷ xs) ys c =
    rw (fun_ext (feed-append xs ys)) (sym (>>=-assoc (byte c x) (λ d. feed d xs) (λ d. feed d ys)))

-- Where the reader cuts the file does not matter.
pub feed_chunks-flatten :
    (pieces : List Text) (c : Csv)
    → All (λ p. p ≢ []) pieces
    → feed_chunks c (map some pieces) ≡ feed c (flatten pieces)
unfolding feed_chunks
feed_chunks-flatten [] c h = unfold feed in refl
feed_chunks-flatten ([] ∷ ps) c h = absurd (h.0 refl)
feed_chunks-flatten ((b ∷ bs) ∷ ps) c h =
    ap (λ k. feed c (b ∷ bs) >>= k) (fun_ext (λ d. feed_chunks-flatten ps d h.1))
    ∙ sym (feed-append (b ∷ bs) (flatten ps) c)

-- the end of a file, behind its lines
finish-last :
    (last : Option (Written × List Written)) (ceiling held l start : ℕ) (after : Bool)
    (rs : List Record)
    → All IsLine (last_line last)
    → Holds ceiling held (lines_cost (last_line last))
    → (feed (between ceiling rs held l start after) (write_last last) >>= finish)
      ≡ ok (rs ++ records_from l (last_line last), held + lines_cost (last_line last))
unfolding feed finish
finish-last none ceiling held l start after rs fine h = rw (append-nil, add-zero)
finish-last (some (w, ws)) ceiling held l start after rs (fine, _) h =
    finish_row ceiling rs held l start after w ws fine (omega arith) ∙ rw add-zero

finish-write_document :
    (d : Document) (ceiling : ℕ)
    → IsDocument d
    → document_cost d ≤ ceiling
    → ceiling ≤ u64_max
    → (feed (new ceiling) (write_document d) >>= finish) ≡ ok (document_records d, document_cost d)
unfolding new
finish-write_document d ceiling fine fits word =
    let taken =
      feed-write_lines ceiling d.lines d.ending [] 0 1 1 false (write_last d.last)
        (Settled-false d.ending) fine.0 (omega arith) in
    ap (λ r. r >>= finish) taken.takes
    ∙ finish-last d.last ceiling (0 + lines_cost d.lines) (line_after 1 d.lines) taken.start
        taken.after (records_from 1 d.lines) fine.1 (omega arith)
    ∙ ap (λ n. ok (document_records d, n)) (omega arith)

-- A document that a publisher writes, bare or quoted, with any one line ending, cut into chunks in
-- any way, is read as exactly the records that it states, each with the line it starts on (less a
-- byte-order mark in front), and is charged exactly what its cells and rows cost, when that is
-- within a ceiling that a `u64` holds.
pub records-write_document :
    (d : Document) (pieces : List Text) (ceiling : ℕ)
    → IsDocument d
    → All (λ p. p ≢ []) pieces
    → flatten pieces ≡ write_document d
    → document_cost d ≤ ceiling
    → ceiling ≤ u64_max
    → records (map some pieces) ceiling ≡ ok (strip_bom (document_records d), document_cost d)
unfolding records
records-write_document d pieces ceiling fine cut joined fits word =
    rw (feed_chunks-flatten pieces (new ceiling) cut, joined)
      (sym (>>=-assoc (feed (new ceiling) (write_document d)) finish _)
        ∙ ap (λ r. r >>= λ p. ok (strip_bom p.0, p.1))
            (finish-write_document d ceiling fine fits word))
