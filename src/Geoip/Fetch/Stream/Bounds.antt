-- ===== src/Geoip/Fetch/Stream/Bounds.antt =====
-- Whatever a server sends: the ceiling on the part file, and what a transfer that succeeds has
-- written.
use factbook_rs.Geoip.Download.Error.{Result, ok, err}
use factbook_rs.Geoip.Fetch.Stream.Body.{joined, Fits, IsDelivered, receive-IsDelivered}
use factbook_rs.Geoip.Fetch.Stream.{
  is_short, receive, open_part, received, accept, stream_from, is_status, stream_to,
  stream_with_fallback,
}
use factbook_rs.Geoip.Fetch.Transfer.{
  Transfer, Response, World, resume_is_checkable, resumable_offset, resume_window_secs, is_success,
}
use factbook_rs.Prelude.Text.{Text}
use factbook_rs.Prelude.{
  ℕ, ◌≤◌, ◌<◌, ◌≡◌, refl, sym, ◌∙◌, ◌⊎◌, inl, inr, Bool, true, false, ◌&&◌, Option, none, some, [],
  ◌++◌, arith, ltb, ◌==◌, if◌then◌else◌, length, saturating_add, u64_max, Bool-cases, Option-cases,
  and_true, ==_iff,
}
use factbook_rs.Table.Build.{map_option}
use factbook_rs.Table.Query.{is_some_and}

-- The bytes that a response brought, behind those of the part file if it continues them.
pub record IsBody (world : World) (url : Text) (part : Option Text) (whole : Text) : Type 0 where
  pub from : ℕ
  pub response : Response
  pub prefix : Text
  pub answered : world.answer url from ≡ some response
  pub success : is_success response.status ≡ true
  pub continued :
      (prefix ≡ []) ⊎ ((part ≡ some prefix) × (length prefix ≡ from) × (response.status ≡ 206))
  pub spelled : whole ≡ prefix ++ joined response.chunks
  pub ended : response.ends ≡ true
  pub declared :
      is_short
        (map_option (λ n. saturating_add n (length prefix)) response.content_length)
        (length whole)
      ≡ false

-- What a transfer leaves: a part file within the ceiling; and after a success one that holds the
-- bytes of a body, as many as are reported.
abbrev pub IsStreamed : World → Text → Option Text → Option Text → Result ℕ → Type 0
IsStreamed world url part after (ok written) =
    (whole : Text) × (after ≡ some whole) × (written ≡ length whole) × IsBody world url part whole
IsStreamed world url part after (err e) = Unit

-- the offset is where the part file ends
abbrev pub StartsAt : ℕ → Option Text → Type 0
StartsAt from part = (from ≡ 0) ⊎ ((held : Text) × (part ≡ some held) × (length held ≡ from))

to_streamed :
    (world : World) (url : Text) (part after : Option Text) (r : Result ℕ) (from : ℕ)
    (response : Response) (prefix : Text)
    → world.answer url from ≡ some response
    → is_success response.status ≡ true
    → (prefix ≡ []) ⊎ ((part ≡ some prefix) × (length prefix ≡ from) × (response.status ≡ 206))
    → IsDelivered
        (prefix ++ joined response.chunks)
        response.ends
        (map_option (λ n. saturating_add n (length prefix)) response.content_length)
        after
        r
    → IsStreamed world url part after r
to_streamed world url part after (err e) from response prefix a s c d = tt
to_streamed world url part after (ok written) from response prefix a s c d = (
  prefix ++ joined response.chunks,
  d.0,
  d.1,
  record {
    from = from;
    response = response;
    prefix = prefix;
    answered = a;
    success = s;
    continued = c;
    spelled = refl;
    ended = d.2;
    declared = rw (← d.1) d.3;
  },
)

-- a response that is received behind a prefix, or whose file does not open
received-IsStreamed :
    (world : World) (url named : Text) (limit : ℕ) (part : Option Text) (from : ℕ)
    (response : Response) (prefix : Text) (opened : Option Text)
    → limit < u64_max
    → Fits limit part
    → length prefix ≤ limit
    → (opened ≡ none) ⊎ (opened ≡ some prefix)
    → world.answer url from ≡ some response
    → is_success response.status ≡ true
    → (prefix ≡ []) ⊎ ((part ≡ some prefix) × (length prefix ≡ from) × (response.status ≡ 206))
    → (let done =
          received world named limit response
            (map_option (λ n. saturating_add n (length prefix)) response.content_length)
            (length prefix)
            part
            opened in
        Fits limit done.0 × IsStreamed world url part done.0 done.1)
unfolding received
received-IsStreamed world url named limit part from response prefix opened top fits short o a s c =
    elim o [
      | inl shut ↦ rw shut (fits, tt)
      | inr open_ ↦
          let done =
            receive world named limit response
              (map_option (λ n. saturating_add n (length prefix)) response.content_length)
              (length prefix) prefix in
          let h =
            receive-IsDelivered world named limit response
              (map_option (λ n. saturating_add n (length prefix)) response.content_length) prefix
              top short in
          rw open_ (h.0, to_streamed world url part done.0 done.1 from response prefix a s c h.1)
    ]

opened_part :
    (opens resuming : Bool) (part : Option Text) (prefix : Text)
    → (if resuming then part else some []) ≡ some prefix
    → (open_part opens resuming part ≡ none) ⊎ (open_part opens resuming part ≡ some prefix)
opened_part false resuming part prefix h = inl refl
opened_part true true part prefix h = inr h
opened_part true false part prefix h = inr h

guarded :
    (over : Bool) (limit : ℕ) (P : Option Text → Result ℕ → Type 0) (refusal : Result ℕ)
    (done : Option Text × Result ℕ)
    → P none refusal
    → Fits limit done.0 × P done.0 done.1
    → (let all_ = if over then (none, refusal) else done in Fits limit all_.0 × P all_.0 all_.1)
guarded true limit P refusal done h k = (tt, h)
guarded false limit P refusal done h k = k

-- on a response that continues the part file, and on one that does not
accept-IsStreamed :
    (world : World) (url named : Text) (from limit : ℕ) (part : Option Text) (response : Response)
    (resuming : Bool) (prefix : Text)
    → limit < u64_max
    → Fits limit part
    → length prefix ≤ limit
    → (if resuming then part else some []) ≡ some prefix
    → length prefix ≡ (if resuming then from else 0)
    → world.answer url from ≡ some response
    → is_success response.status ≡ true
    → (prefix ≡ []) ⊎ ((part ≡ some prefix) × (length prefix ≡ from) × (response.status ≡ 206))
    → (let done = accept world named from limit part response resuming in
        Fits limit done.0 × IsStreamed world url part done.0 done.1)
unfolding accept
accept-IsStreamed world url named from limit part response resuming prefix top fits short o l a s
      c =
    rw (← l) (
      guarded _ limit (IsStreamed world url part) _ _ tt (
        received-IsStreamed world url named limit part from response prefix
          (open_part world.opens resuming part) top fits short
          (opened_part world.opens resuming part prefix o) a s c))

-- `resuming` on an offset that is where the part file ends
accepted-IsStreamed :
    (world : World) (url named : Text) (from limit : ℕ) (part : Option Text) (response : Response)
    → limit < u64_max
    → Fits limit part
    → StartsAt from part
    → world.answer url from ≡ some response
    → is_success response.status ≡ true
    → (let done =
          accept world named from limit part response (ltb 0 from && response.status == 206) in
        Fits limit done.0 × IsStreamed world url part done.0 done.1)
accepted-IsStreamed world url named from limit part response top fits starts a s =
    elim (Bool-cases (ltb 0 from && response.status == 206)) [
      | inr afresh ↦ rw afresh (
          accept-IsStreamed world url named from limit part response false [] top fits (omega arith)
            refl refl a s (inl refl))
      | inl resuming ↦
          let both = and_true (ltb 0 from) (response.status == 206) resuming in
          rw resuming (elim starts [
            | inl zero_ ↦ absurd (ground (arith, both.0))
            | inr (held, there, ends) ↦
                accept-IsStreamed world url named from limit part response true held top fits
                  (rw there at fits) there ends a s
                  (inr (there, ends, (==_iff response.status 206).0 both.1))
          ])
    ]

pub stream_from-IsStreamed :
    (world : World) (transfer : Transfer) (url : Text) (from limit : ℕ) (part : Option Text)
    → limit < u64_max
    → Fits limit part
    → StartsAt from part
    → (let done = stream_from world transfer url from limit part in
        Fits limit done.0 × IsStreamed world url part done.0 done.1)
unfolding stream_from
stream_from-IsStreamed world transfer url from limit part top fits starts =
    elim (Option-cases (world.answer url from)) [
      | inl silent ↦ rw (silent, stream_from) (fits, tt)
      | inr (response, answered) ↦ elim (Bool-cases (is_success response.status)) [
        | inl success ↦
            rw (answered, success, stream_from)
              (accepted-IsStreamed world url _ from limit part response top fits starts answered
                success)
        | inr refusal ↦ rw (answered, refusal, stream_from) (fits, tt)
      ]
    ]

offset-StartsAt :
    (age : Option ℕ) (part : Option Text) (limit : ℕ)
    → Fits limit part
    → (let (kept, offset) = resumable_offset age part in
        Fits limit kept × StartsAt offset kept × ((kept ≡ none) ⊎ (kept ≡ part)))
unfolding resumable_offset
offset-StartsAt age none limit fits = (tt, inl refl, inl refl)
offset-StartsAt none (some part) limit fits = (tt, inl refl, inl refl)
offset-StartsAt (some age) (some part) limit fits = elim (Bool-cases (ltb age resume_window_secs)) [
  | inl recent ↦ rw recent (fits, inr (part, refl, refl), inr refl)
  | inr old ↦ rw old (tt, inl refl, inl refl)
]

-- a transfer that began without the part file left nothing of it
IsStreamed-kept :
    (world : World) (url : Text) (kept part after : Option Text) (r : Result ℕ)
    → (kept ≡ none) ⊎ (kept ≡ part)
    → IsStreamed world url kept after r
    → IsStreamed world url part after r
IsStreamed-kept world url kept part after (err e) k h = tt
IsStreamed-kept world url kept part after (ok written) k h = (
  h.0,
  h.1,
  h.2,
  record {
    from = h.3.from;
    response = h.3.response;
    prefix = h.3.prefix;
    answered = h.3.answered;
    success = h.3.success;
    continued = elim h.3.continued [
      | inl afresh ↦ inl afresh
      | inr (there, ends, status) ↦ elim k [
        | inl gone ↦ absurd (absent (sym gone ∙ there))
        | inr same ↦ inr (sym same ∙ there, ends, status)
      ]
    ];
    spelled = h.3.spelled;
    ended = h.3.ended;
    declared = h.3.declared;
  },
)
  where
    absent : {text : Text} → none ≡ some text → ⊥
    absent e = cc

-- a second transfer in place of the first
retried :
    (again : Bool) (P : Option Text × Result ℕ → Type 0) (first second : Option Text × Result ℕ)
    → P first
    → P second
    → P (if again then second else first)
retried true P first second h k = k
retried false P first second h k = h

checkable_offset :
    (checkable : Bool) (offset : ℕ) (part : Option Text)
    → StartsAt offset part
    → StartsAt (if checkable then offset else 0) part
checkable_offset true offset part h = h
checkable_offset false offset part h = inl refl

pub stream_to-IsStreamed :
    (world : World) (transfer : Transfer) (age : Option ℕ) (url : Text) (limit : ℕ)
    (part : Option Text)
    → limit < u64_max
    → Fits limit part
    → (let done = stream_to world transfer age url limit part in
        Fits limit done.0 × IsStreamed world url part done.0 done.1)
unfolding stream_to
stream_to-IsStreamed world transfer age url limit part top fits =
    let (kept, offset) = resumable_offset age part in
    let starts = offset-StartsAt age part limit fits in
    let checkable =
      resume_is_checkable transfer.archive (is_some_and transfer.checksum_url (λ url. true)) in
    let from = if checkable then offset else 0 in
    let first =
      stream_from-IsStreamed world transfer url from limit kept top starts.0
        (checkable_offset checkable offset kept starts.1) in
    let second = stream_from-IsStreamed world transfer url 0 limit none top tt (inl refl) in
    retried (is_status 416 (stream_from world transfer url from limit kept).1 && ltb 0 from)
      (λ done. Fits limit done.0 × IsStreamed world url part done.0 done.1)
      (stream_from world transfer url from limit kept) (stream_from world transfer url 0 limit none)
      (first.0, IsStreamed-kept world url kept part _ _ starts.2 first.1)
      (second.0, IsStreamed-kept world url none part _ _ (inl refl) second.1)

pub stream_with_fallback-IsStreamed :
    (world : World) (transfer : Transfer) (age : Option ℕ) (limit : ℕ) (part : Option Text)
    → limit < u64_max
    → Fits limit part
    → (let done = stream_with_fallback world transfer age limit part in
        Fits limit done.0
        × (IsStreamed world transfer.url part done.0 done.1
            ⊎ ((fallback : Text) × (transfer.fallback_url ≡ some fallback)
                × IsStreamed world fallback none done.0 done.1)))
unfolding stream_with_fallback
stream_with_fallback-IsStreamed world transfer age limit part top fits =
    let primary = stream_to-IsStreamed world transfer age transfer.url limit part top fits in
    elim (Option-cases transfer.fallback_url) [
      | inl alone ↦ rw alone (primary.0, inl primary.1)
      | inr (fallback, stated) ↦
          let second = stream_to-IsStreamed world transfer age fallback limit none top tt in
          rw stated (
            retried (is_status 404 (stream_to world transfer age transfer.url limit part).1)
              (λ done.
                Fits limit done.0
                × (IsStreamed world transfer.url part done.0 done.1
                    ⊎ ((other : Text) × (some fallback ≡ some other)
                        × IsStreamed world other none done.0 done.1)))
              (stream_to world transfer age transfer.url limit part)
              (stream_to world transfer age fallback limit none) (primary.0, inl primary.1)
              (second.0, inr (fallback, refl, second.1)))
    ]
