-- ===== src/Worker/Handshake/Reads.antt =====
-- What the reads of internal/worker/worker.go, `readJSON` and the wait for the acknowledgement in
-- `connect`, pass over and end with.
use callstorm.Prelude.{
  ◌≡◌, refl, ap, String, str_eq, true, false, List, [], ◌∷◌, ◌++◌, map, if_intro, All,
}
use callstorm.Worker.Reader.{ServerMessage, first_non_empty}
use callstorm.Worker.Handshake.{
  Error, dial, no_welcome, not_welcome, no_json, not_sent, not_applied, rejected, Incoming,
  read_failed, binary, unreadable, text, Read, got, failed, waiting, Exchange, heard, told,
  read_json, Connected, pending, refused, connected, await_applied,
}

abbrev pub IsBinary : Incoming → Type 0
IsBinary binary = Unit
IsBinary (read_failed why) = ⊥
IsBinary (unreadable why) = ⊥
IsBinary (text m) = ⊥

-- A read that neither acknowledges the settings nor is an error.
abbrev pub IsPassed : Incoming → Type 0
IsPassed binary = Unit
IsPassed (text m) =
    (str_eq m.msg_type "SettingsApplied" ≡ false) × (str_eq m.msg_type "Error" ≡ false)
IsPassed (read_failed why) = ⊥
IsPassed (unreadable why) = ⊥

abbrev pub IsHeard : Exchange → Type 0
IsHeard (heard i) = Unit
IsHeard (told s) = ⊥

abbrev pub all_heard : List Incoming → List Exchange
all_heard reads = map heard reads

-- A read that fails for that reason.
abbrev pub Fails : String → Incoming → Type 0
Fails why (read_failed w) = w ≡ why
Fails why (unreadable w) = w ≡ why
Fails why binary = ⊥
Fails why (text m) = ⊥

-- What `readJSON` heard, and how it came to answer as it did.
abbrev pub ReadAs : List Incoming → Read → List Exchange → Type 0
ReadAs reads (got m more) log =
    (before : List Incoming) × All IsBinary before
    × (reads ≡ before ++ (text m ∷ more))
    × (log ≡ all_heard before ++ (heard (text m) ∷ []))
ReadAs reads (failed why) log =
    (before : List Incoming) × (i : Incoming) × (more : List Incoming) × All IsBinary before
    × Fails why i
    × (reads ≡ before ++ (i ∷ more))
    × (log ≡ all_heard (before ++ (i ∷ [])))
ReadAs reads waiting log = All IsBinary reads × (log ≡ all_heard reads)

binary-ReadAs :
    (reads : List Incoming) (r : Read) (log : List Exchange)
    → ReadAs reads r log
    → ReadAs (binary ∷ reads) r (heard binary ∷ log)
binary-ReadAs reads (got m more) log (before, all, split, order) = (
  binary ∷ before,
  (tt, all),
  ap (λ (l : List Incoming). binary ∷ l) split,
  ap (λ (l : List Exchange). heard binary ∷ l) order,
)
binary-ReadAs reads (failed why) log (before, i, more, all, bad, split, order) = (
  binary ∷ before,
  i,
  more,
  (tt, all),
  bad,
  ap (λ (l : List Incoming). binary ∷ l) split,
  ap (λ (l : List Exchange). heard binary ∷ l) order,
)
binary-ReadAs reads waiting log (all, order) =
    ((tt, all), ap (λ (l : List Exchange). heard binary ∷ l) order)

pub read_json-ReadAs :
    (reads : List Incoming) → ReadAs reads (read_json reads).0 (read_json reads).1
unfolding read_json
read_json-ReadAs [] = (tt, refl)
read_json-ReadAs (read_failed why ∷ more) = ([], read_failed why, more, tt, refl, refl, refl)
read_json-ReadAs (binary ∷ more) =
    binary-ReadAs more (read_json more).0 (read_json more).1 (read_json-ReadAs more)
read_json-ReadAs (unreadable why ∷ more) = ([], unreadable why, more, tt, refl, refl, refl)
read_json-ReadAs (text m ∷ more) = ([], tt, refl, refl)

-- A read after some that were passed over, and what follows it.
abbrev pub After : (Incoming → Type 0) → List Incoming → Type 0
After P reads =
    (between : List Incoming) × (i : Incoming) × (more : List Incoming) × All IsPassed between
    × P i
    × (reads ≡ between ++ (i ∷ more))

-- An error of the agent, with its code and the first of its texts that is not empty.
abbrev pub IsError : String → String → Incoming → Type 0
IsError code why (text m) =
    (str_eq m.msg_type "Error" ≡ true)
    × (code ≡ m.code)
    × (why ≡ first_non_empty (m.description ∷ m.message ∷ []))
IsError code why binary = ⊥
IsError code why (read_failed w) = ⊥
IsError code why (unreadable w) = ⊥

abbrev pub NotAppliedAs : List Incoming → Error → Type 0
NotAppliedAs reads (not_applied why) = After (Fails why) reads
NotAppliedAs reads (rejected code why) = After (IsError code why) reads
NotAppliedAs reads (dial url why) = ⊥
NotAppliedAs reads (no_welcome why) = ⊥
NotAppliedAs reads (not_welcome kind) = ⊥
NotAppliedAs reads (no_json why) = ⊥
NotAppliedAs reads (not_sent why) = ⊥

-- How the wait for the acknowledgement came to end as it did.
abbrev pub AppliedAs : List Incoming → Connected → List Exchange → Type 0
AppliedAs reads (connected id more) log =
    (between : List Incoming) × (ack : ServerMessage) × All IsPassed between
    × (str_eq ack.msg_type "SettingsApplied" ≡ true)
    × (reads ≡ between ++ (text ack ∷ more))
    × (log ≡ all_heard between ++ (heard (text ack) ∷ []))
AppliedAs reads (refused why) log = NotAppliedAs reads why
AppliedAs reads pending log = All IsPassed reads

later-After :
    (P : Incoming → Type 0) (i : Incoming) (reads : List Incoming)
    → IsPassed i
    → After P reads
    → After P (i ∷ reads)
later-After P i reads p (between, j, more, all, h, split) =
    (i ∷ between, j, more, (p, all), h, ap (λ (l : List Incoming). i ∷ l) split)

passed-NotAppliedAs :
    (i : Incoming) (reads : List Incoming) (why : Error)
    → IsPassed i
    → NotAppliedAs reads why
    → NotAppliedAs (i ∷ reads) why
passed-NotAppliedAs i reads (not_applied why) p h = later-After (Fails why) i reads p h
passed-NotAppliedAs i reads (rejected code why) p h = later-After (IsError code why) i reads p h
passed-NotAppliedAs i reads (dial url why) p h = absurd h
passed-NotAppliedAs i reads (no_welcome why) p h = absurd h
passed-NotAppliedAs i reads (not_welcome kind) p h = absurd h
passed-NotAppliedAs i reads (no_json why) p h = absurd h
passed-NotAppliedAs i reads (not_sent why) p h = absurd h

passed-AppliedAs :
    (i : Incoming) (reads : List Incoming) (c : Connected) (log : List Exchange)
    → IsPassed i
    → AppliedAs reads c log
    → AppliedAs (i ∷ reads) c (heard i ∷ log)
passed-AppliedAs i reads (connected id more) log p (between, ack, all, kind, split, order) = (
  i ∷ between,
  ack,
  (p, all),
  kind,
  ap (λ (l : List Incoming). i ∷ l) split,
  ap (λ (l : List Exchange). heard i ∷ l) order,
)
passed-AppliedAs i reads (refused why) log p h = passed-NotAppliedAs i reads why p h
passed-AppliedAs i reads pending log p h = (p, h)

abbrev pub Awaited : List Incoming → Connected × List Exchange → Type 0
Awaited reads end = AppliedAs reads end.0 end.1 × All IsHeard end.1

pub await_applied-Awaited : (reads : List Incoming) → Awaited reads (await_applied reads)
unfolding await_applied
await_applied-Awaited [] = (tt, tt)
await_applied-Awaited (read_failed why ∷ more) =
    (([], read_failed why, more, tt, refl, refl), (tt, tt))
await_applied-Awaited (binary ∷ more) =
    let (a, h) = await_applied-Awaited more in
    (passed-AppliedAs binary more (await_applied more).0 (await_applied more).1 tt a, (tt, h))
await_applied-Awaited (unreadable why ∷ more) =
    (([], unreadable why, more, tt, refl, refl), (tt, tt))
await_applied-Awaited (text m ∷ more) =
    if_intro (Awaited (text m ∷ more)) (str_eq m.msg_type "SettingsApplied") _ _
      (λ e. (([], m, tt, e, refl, refl), (tt, tt)))
      (λ e.
        if_intro (Awaited (text m ∷ more)) (str_eq m.msg_type "Error") _ _
          (λ f. (([], text m, more, tt, (f, refl, refl), refl), (tt, tt)))
          (λ f.
            let (a, h) = await_applied-Awaited more in
            (
              passed-AppliedAs (text m) more (await_applied more).0 (await_applied more).1 (e, f) a,
              (tt, h),
            )))
