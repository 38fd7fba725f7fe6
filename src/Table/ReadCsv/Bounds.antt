-- ===== src/Table/ReadCsv/Bounds.antt =====
-- What every successful read of CSV records guarantees, and how the reads of one file fail.
use factbook_rs.Prelude.{
  ℕ, ◌≤◌, ◌≡◌, none, some, List, [], ◌∷◌, arith, u64_max, Bool-cases, inl, inr, if◌then◌else◌,
}
use factbook_rs.Table.Csv.Bounds.{
  Inv, Keeps, new-Inv, Keeps-bind, feed-Inv, end_record-Inv, Finished,
}
use factbook_rs.Table.Csv.{Csv, Record, new, feed, finish, end_record, is_quoted}
use factbook_rs.Table.Error.{TableError, Result, ok, err, ◌>>=◌, >>=-eq-ok}
use factbook_rs.Table.ReadCsv.{Reader, feed_chunks}

abbrev handed : Csv → Result (List Record × ℕ)
handed c = ok (c.records, c.held)

module _ (ceiling : ℕ) where
  feed_chunks-Inv :
      (reader : Reader) (c : Csv) → Inv ceiling c → Keeps ceiling (feed_chunks c reader)
  unfolding feed_chunks
  feed_chunks-Inv [] c i = i
  feed_chunks-Inv (none ∷ _) c i = tt
  feed_chunks-Inv (some [] ∷ _) c i = i
  feed_chunks-Inv (some (b ∷ bs) ∷ chunks) c i =
      Keeps-bind ceiling (feed c (b ∷ bs)) _ (feed-Inv ceiling (b ∷ bs) c i)
        (feed_chunks-Inv chunks)

  Inv-Finished :
      (r : Result Csv) {rs : List Record} {held : ℕ}
      → Keeps ceiling r
      → (r >>= handed) ≡ ok (rs, held)
      → Finished ceiling rs held
  Inv-Finished (ok c) i e = ground arith
  Inv-Finished (err x) i e = cc

  never : {A : Type 0} {x : TableError} {a : A} → ◌≡◌ {A = Result A} (err x) (ok a) → ⊥
  never h = cc

  finish-Finished :
      (c : Csv) {rs : List Record} {held : ℕ}
      → Inv ceiling c
      → finish c ≡ ok (rs, held)
      → Finished ceiling rs held
  unfolding finish
  finish-Finished c i e = elim (Bool-cases (is_quoted c.state)) [
    | inl q ↦ absurd (never (rw q at e))
    | inr q ↦
        Inv-Finished (if c.started then end_record c else ok c)
          (ground (arith, end_record-Inv ceiling c i)) (rw q at e)
  ]

  -- Whatever a reader hands out, a read that succeeds stays within its ceiling, has charged exactly
  -- what its records cost as rows (up to the largest `u64`), and its records have between one and
  -- 4096 fields, each valid UTF-8 and at most 8 MiB long.
  pub finish-feed_chunks-Finished :
      (reader : Reader) {rs : List Record} {held : ℕ}
      → ceiling ≤ u64_max
      → (feed_chunks (new ceiling) reader >>= finish) ≡ ok (rs, held)
      → Finished ceiling rs held
  finish-feed_chunks-Finished reader word e =
      let (c, fed, finished) = >>=-eq-ok (feed_chunks (new ceiling) reader) finish e in
      finish-Finished c (rw fed at (feed_chunks-Inv reader (new ceiling) (new-Inv ceiling word)))
        finished
