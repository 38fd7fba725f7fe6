-- ===== src/Geoip/Fetch/Writer/Whole.antt =====
-- A writer that finishes has written every chunk, in order and once.
use mathlib.Core.Option.{some-injective}
use factbook_rs.Geoip.Fetch.Writer.{
  write_batch_bytes, Landing, landed, failed, lost, Handed, PartWriter, new_writer, hand, settle,
  and_then, send_settled, send, file_if, write, finish,
}
use factbook_rs.Prelude.Text.{Text}
use factbook_rs.Prelude.{
  ℕ, suc, ◌≡◌, refl, sym, ap, ◌∙◌, Bool, true, false, Option, none, some, [], ◌∷◌, ◌++◌, append-nil,
  append_assoc, arith, leb, ltb, if◌then◌else◌, length,
}

-- what a write that is handed back promises of the file
abbrev pub Promised : Option Handed → Text → Type 0
Promised none held = Unit
Promised (some done) held = (done.spare ≡ []) × ((done.is_ok ≡ true) → done.file ≡ held)

abbrev pub PromisedBy : Option (Option Handed) → Option Text → Text → Type 0
PromisedBy none file held = file ≡ some held
PromisedBy (some handed) file held = Promised handed held

-- A writer whose file, once its write lands, and whose gathered bytes are the bytes so far.
pub record IsAt (so_far : Text) (w : PartWriter) : Type 0 where
  pub held : Text
  pub promised : PromisedBy w.pending w.file held
  pub together : held ++ w.gathered ≡ so_far
  pub clear : w.spare ≡ []

-- what `settle` leaves, if it succeeds
pub record IsSettled (so_far : Text) (w : PartWriter) : Type 0 where
  pub held : Text
  pub there : w.file ≡ some held
  pub idle : w.pending ≡ none
  pub together : held ++ w.gathered ≡ so_far
  pub clear : w.spare ≡ []

settle-IsSettled_from :
    (pending : Option (Option Handed)) (file : Option Text) (gathered spare so_far : Text)
    → IsAt so_far (record { file = file; pending = pending; gathered = gathered; spare = spare })
    → (settle (record { file = file; pending = pending; gathered = gathered; spare = spare })).1
      ≡ true
    → IsSettled so_far
        (settle (record { file = file; pending = pending; gathered = gathered; spare = spare })).0
unfolding settle
settle-IsSettled_from none file gathered spare so_far h e = record {
  held = h.held;
  there = h.promised;
  idle = refl;
  together = h.together;
  clear = h.clear;
}
settle-IsSettled_from (some none) file gathered spare so_far h e = cc
settle-IsSettled_from (some (some done)) file gathered spare so_far h e = record {
  held = h.held;
  there = ap some (h.promised.1 e);
  idle = refl;
  together = h.together;
  clear = h.promised.0;
}

settle-IsSettled :
    (w : PartWriter) (so_far : Text)
    → IsAt so_far w
    → (settle w).1 ≡ true
    → IsSettled so_far (settle w).0
settle-IsSettled w so_far h e = settle-IsSettled_from w.pending w.file w.gathered w.spare so_far h e

hand-Promised :
    (write_all : Text → Text → Landing) (file batch : Text)
    → Promised (hand write_all file batch) (file ++ batch)
unfolding hand
hand-Promised write_all file batch = go (write_all file batch)
  where
    go :
        (l : Landing)
        → Promised
            (elim l [
              | landed ↦ some (record { file = file ++ batch; spare = []; is_ok = true })
              | failed holds ↦ some (record { file = holds; spare = []; is_ok = false })
              | lost ↦ none
            ])
            (file ++ batch)
    go landed = (refl, λ e. refl)
    go (failed holds) = (refl, λ e. cc)
    go lost = tt

-- a writer that has gathered nothing more
abbrev IsEmptied : Text → PartWriter → Type 0
IsEmptied so_far w = IsAt so_far w × (w.gathered ≡ [])

send_settled-IsEmptied :
    (write_all : Text → Text → Landing) (w : PartWriter) (so_far : Text)
    → IsSettled so_far w
    → IsEmptied so_far (send_settled write_all w w.file).0
send_settled-IsEmptied write_all w so_far h = rw h.there (
  record {
    held = so_far;
    promised = rw (← h.together) (hand-Promised write_all h.held w.gathered);
    together = ap (λ t. so_far ++ t) h.clear ∙ append-nil so_far;
    clear = refl;
  },
  h.clear,
)

-- what a chain of two that succeeds leaves
and_then-keeps :
    (P Q : PartWriter → Type 0) (first : PartWriter × Bool) (next : PartWriter → PartWriter × Bool)
    → (first.1 ≡ true → P first.0)
    → ((w : PartWriter) → P w → (next w).1 ≡ true → Q (next w).0)
    → (and_then first next).1 ≡ true
    → Q (and_then first next).0
and_then-keeps P Q (w, true) next h g e = g w (h refl) e
and_then-keeps P Q (w, false) next h g e = cc

send-IsEmptied :
    (write_all : Text → Text → Landing) (w : PartWriter) (so_far : Text)
    → IsAt so_far w
    → (send write_all w).1 ≡ true
    → IsEmptied so_far (send write_all w).0
unfolding send
send-IsEmptied write_all w so_far h =
    and_then-keeps (IsSettled so_far) (IsEmptied so_far) (settle w)
      (λ idle. send_settled write_all idle idle.file) (settle-IsSettled w so_far h)
      (λ idle settled e. send_settled-IsEmptied write_all idle so_far settled)

-- a writer that is sent on a condition
sent_if :
    (write_all : Text → Text → Landing) (full : Bool) (w : PartWriter) (so_far : Text)
    → IsAt so_far w
    → (if full then send write_all w else (w, true)).1 ≡ true
    → IsAt so_far (if full then send write_all w else (w, true)).0
sent_if write_all true w so_far h e = (send-IsEmptied write_all w so_far h e).0
sent_if write_all false w so_far h e = h

pub write-IsAt :
    (write_all : Text → Text → Landing) (w : PartWriter) (chunk so_far : Text)
    → IsAt so_far w
    → (write write_all w chunk).1 ≡ true
    → IsAt (so_far ++ chunk) (write write_all w chunk).0
unfolding write
write-IsAt write_all w chunk so_far h =
    sent_if write_all (leb write_batch_bytes (length (w.gathered ++ chunk)))
      (record w { gathered = w.gathered ++ chunk }) (so_far ++ chunk)
      (record {
        held = h.held;
        promised = h.promised;
        together = sym (append_assoc h.held w.gathered chunk) ∙ ap (λ t. t ++ chunk) h.together;
        clear = h.clear;
      })

-- what a chain that gives its file leaves in it
file_if-some :
    (done : PartWriter × Bool) (file : Text)
    → file_if done ≡ some file
    → (done.1 ≡ true) × (done.0.file ≡ some file)
file_if-some (w, true) file e = (refl, e)
file_if-some (w, false) file e = cc

-- a writer that is sent unless it has gathered nothing
sent-IsEmptied_if :
    (write_all : Text → Text → Landing) (w : PartWriter) (gathered so_far : Text)
    → w.gathered ≡ gathered
    → IsAt so_far w
    → (if ltb 0 (length gathered) then send write_all w else (w, true)).1 ≡ true
    → IsEmptied so_far (if ltb 0 (length gathered) then send write_all w else (w, true)).0
sent-IsEmptied_if write_all w [] so_far g h e = (h, g)
sent-IsEmptied_if write_all w (b ∷ gathered) so_far g h e =
    rw (positive (length gathered))
      (send-IsEmptied write_all w so_far h (rw (positive (length gathered)) at e))
  where
    positive : (n : ℕ) → ltb 0 (suc n) ≡ true
    positive n = ground arith

settle-gathered : (w : PartWriter) → (settle w).0.gathered ≡ w.gathered
unfolding settle
settle-gathered w = go w.pending
  where
    go :
        (pending : Option (Option Handed))
        → (settle (record w { pending = pending })).0.gathered ≡ w.gathered
    go none = refl
    go (some none) = refl
    go (some (some done)) = refl

pub finish-some :
    (write_all : Text → Text → Landing) (w : PartWriter) (so_far file : Text)
    → IsAt so_far w
    → finish write_all w ≡ some file
    → file ≡ so_far
unfolding finish
finish-some write_all w so_far file h e =
    let sent = if ltb 0 (length w.gathered) then send write_all w else (w, true) in
    let done = file_if-some (and_then sent settle) file e in
    some-injective file so_far (
      sym done.1
      ∙ and_then-keeps (IsEmptied so_far) (λ v. v.file ≡ some so_far) sent settle
          (sent-IsEmptied_if write_all w w.gathered so_far refl h)
          (λ v emptied ok_.
            let settled = settle-IsSettled v so_far emptied.0 ok_ in
            settled.there
            ∙ ap some (
                sym (append-nil settled.held)
                ∙ ap (λ t. settled.held ++ t) (sym (settle-gathered v ∙ emptied.1))
                ∙ settled.together))
          done.0)

pub new_writer-IsAt : (file : Text) → IsAt file (new_writer file)
unfolding new_writer
new_writer-IsAt file = record {
  held = file;
  promised = refl;
  together = append-nil file;
  clear = refl;
}
