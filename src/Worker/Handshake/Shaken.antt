-- ===== src/Worker/Handshake/Shaken.antt =====
-- The order of the handshake of internal/worker/worker.go, `connect`, however it ends.
use mathlib.Core.List.{append_assoc}
use callstorm.Prelude.{
  ℕ, ◌≡◌, refl, ap, ◌∙◌, ◌⊎◌, String, str_eq, Bool, true, false, not, Option, none, some, List, [],
  ◌∷◌, ◌++◌, if◌then◌else◌, if_intro, not-false, inl, inr, All, All-append,
}
use callstorm.Scenario.{Target}
use callstorm.Worker.Reader.{ServerMessage}
use callstorm.Worker.Handshake.{
  Error, dial, no_welcome, not_welcome, no_json, not_sent, not_applied, rejected, Incoming, text,
  Settings, build_settings, Read, got, failed, waiting, Exchange, heard, told, read_json, Connected,
  pending, refused, connected, await_applied, named, Answers, after_send, after_json, after_welcome,
  after_dial, default_url, connect,
}
use callstorm.Worker.Handshake.Reads.{
  IsBinary, IsPassed, IsHeard, all_heard, Fails, ReadAs, read_json-ReadAs, After, IsError,
  NotAppliedAs, AppliedAs, await_applied-Awaited,
}

-- The log: nothing was sent, or the settings of the scenario were, once, just after a Welcome that was
-- the first text to arrive.
abbrev pub Orderly : Settings → List Exchange → Type 0
Orderly s log =
    All IsHeard log
    ⊎ ((before : List Incoming) × (hello : ServerMessage) × (later : List Exchange) × All IsBinary
          before
        × (str_eq hello.msg_type "Welcome" ≡ true)
        × (log ≡ all_heard before ++ (heard (text hello) ∷ told s ∷ later))
        × All IsHeard later)

-- What a call that is connected went through, `more` being what it has not read.
pub record Shaken (s : Settings) (reads : List Incoming) (id : String) (more : List Incoming)
    (log : List Exchange) : Type 0 where
  pub before : List Incoming
  pub hello : ServerMessage
  pub between : List Incoming
  pub ack : ServerMessage
  pub no_text : All IsBinary before
  pub greeted : str_eq hello.msg_type "Welcome" ≡ true
  pub is_named : hello.request_id ≡ id
  pub passed : All IsPassed between
  pub acknowledged : str_eq ack.msg_type "SettingsApplied" ≡ true
  pub arrived : reads ≡ before ++ (text hello ∷ (between ++ (text ack ∷ more)))
  pub in_order :
      log
      ≡ all_heard before
        ++ (heard (text hello) ∷ told s ∷ (all_heard between ++ (heard (text ack) ∷ [])))

-- The reads up to the Welcome, and a property of those after it.
abbrev pub AfterWelcome : (List Incoming → Type 0) → List Incoming → Type 0
AfterWelcome P reads =
    (before : List Incoming) × (hello : ServerMessage) × (more : List Incoming) × All IsBinary
      before
    × (str_eq hello.msg_type "Welcome" ≡ true)
    × (reads ≡ before ++ (text hello ∷ more))
    × P more

-- Why connecting was refused.
abbrev pub Refused : Answers → List Incoming → Error → Type 0
Refused ans reads (dial url why) = ans.dialled ≡ some why
Refused ans reads (no_welcome why) =
    (before : List Incoming) × (i : Incoming) × (more : List Incoming) × All IsBinary before
    × Fails why i
    × (reads ≡ before ++ (i ∷ more))
Refused ans reads (not_welcome kind) =
    (before : List Incoming) × (m : ServerMessage) × (more : List Incoming) × All IsBinary before
    × (str_eq m.msg_type "Welcome" ≡ false)
    × (kind ≡ m.msg_type)
    × (reads ≡ before ++ (text m ∷ more))
Refused ans reads (no_json why) = ans.encoded ≡ some why
Refused ans reads (not_sent why) = ans.sent ≡ some why
Refused ans reads (not_applied why) = AfterWelcome (After (Fails why)) reads
Refused ans reads (rejected code why) = AfterWelcome (After (IsError code why)) reads

-- Why a call is connected, refused, or still waits for a read.
abbrev pub Reached : Settings → Answers → List Incoming → Connected → List Exchange → Type 0
Reached s ans reads (connected id more) log = Shaken s reads id more log
Reached s ans reads (refused why) log = Refused ans reads why
Reached s ans reads pending log = All IsBinary reads ⊎ AfterWelcome (All IsPassed) reads

-- How connecting ends, with its log.
abbrev pub Ends : Settings → Answers → List Incoming → Connected × List Exchange → Type 0
Ends s ans reads end = Orderly s end.1 × Reached s ans reads end.0 end.1

all_heard-IsHeard : (is : List Incoming) → All IsHeard (all_heard is)
all_heard-IsHeard [] = tt
all_heard-IsHeard (i ∷ is) = (tt, all_heard-IsHeard is)

heard_text :
    (before : List Incoming) (m : ServerMessage)
    → All IsHeard (all_heard before ++ (heard (text m) ∷ []))
heard_text before m =
    All-append IsHeard (all_heard before) (heard (text m) ∷ []) (all_heard-IsHeard before) (tt, tt)

module _ (s : Settings) (ans : Answers) (reads before more : List Incoming) (hello : ServerMessage)
    (no_text : All IsBinary before) (greeted : str_eq hello.msg_type "Welcome" ≡ true)
    (split : reads ≡ before ++ (text hello ∷ more)) where
  abbrev opened : List Exchange
  opened = all_heard before ++ (heard (text hello) ∷ [])

  welcome_then : (P : List Incoming → Type 0) → P more → AfterWelcome P reads
  welcome_then P h = (before, hello, more, no_text, greeted, split, h)

  not_applied-Refused : (why : Error) → NotAppliedAs more why → Refused ans reads why
  not_applied-Refused (not_applied why) h = welcome_then (After (Fails why)) h
  not_applied-Refused (rejected code why) h = welcome_then (After (IsError code why)) h
  not_applied-Refused (dial url why) h = absurd h
  not_applied-Refused (no_welcome why) h = absurd h
  not_applied-Refused (not_welcome kind) h = absurd h
  not_applied-Refused (no_json why) h = absurd h
  not_applied-Refused (not_sent why) h = absurd h

  named-Reached :
      (c : Connected) (log : List Exchange)
      → AppliedAs more c log
      → Reached s ans reads (named hello.request_id c) (opened ++ (told s ∷ log))
  named-Reached (connected nobody left) log (between, ack, all, kind, rest, order) = record {
    before = before;
    hello = hello;
    between = between;
    ack = ack;
    no_text = no_text;
    greeted = greeted;
    is_named = refl;
    passed = all;
    acknowledged = kind;
    arrived = split ∙ ap (λ (l : List Incoming). before ++ (text hello ∷ l)) rest;
    in_order =
        append_assoc (all_heard before) (heard (text hello) ∷ []) (told s ∷ log)
        ∙ ap (λ (l : List Exchange). all_heard before ++ (heard (text hello) ∷ told s ∷ l)) order;
  }
  named-Reached (refused why) log h = not_applied-Refused why h
  named-Reached pending log h = inr (welcome_then (All IsPassed) h)

  sent-Ends :
      (w : Option String)
      → ans.sent ≡ w
      → Ends s ans reads (after_send w s hello.request_id more opened)
  sent-Ends (some why) e = (inl (heard_text before hello), e)
  sent-Ends none e =
      let (a, h) = await_applied-Awaited more in
      (
        inr (
          before,
          hello,
          (await_applied more).1,
          no_text,
          greeted,
          append_assoc (all_heard before) (heard (text hello) ∷ [])
              (told s ∷ (await_applied more).1),
          h,
        ),
        named-Reached (await_applied more).0 (await_applied more).1 a,
      )

  json-Ends :
      (j : Option String)
      → ans.encoded ≡ j
      → Ends s ans reads (after_json j ans.sent s hello.request_id more opened)
  json-Ends (some why) e = (inl (heard_text before hello), e)
  json-Ends none e = sent-Ends ans.sent refl

welcomed-Ends :
    (ans : Answers) (s : Settings) (reads : List Incoming) (r : Read) (log : List Exchange)
    → ReadAs reads r log
    → Ends s ans reads (after_welcome ans s r log)
welcomed-Ends ans s reads waiting log (all, order) =
    (inl (rw (order) (all_heard-IsHeard reads)), inl all)
welcomed-Ends ans s reads (failed why) log (before, i, more, all, bad, split, order) =
    (inl (rw (order) (all_heard-IsHeard (before ++ (i ∷ [])))), (before, i, more, all, bad, split))
welcomed-Ends ans s reads (got m more) log (before, all, split, order) =
    if_intro (Ends s ans reads) (not (str_eq m.msg_type "Welcome")) _ _
      (λ e. (
        inl (rw (order) (heard_text before m)),
        (before, m, more, all, not-true (str_eq m.msg_type "Welcome") e, refl, split),
      ))
      (λ e. rw (order) (
        json-Ends s ans reads before more m all (not-false (str_eq m.msg_type "Welcome") e) split
          ans.encoded refl))
  where
    not-true : (b : Bool) → not b ≡ true → b ≡ false
    not-true true h = cc
    not-true false h = refl

dialled-Ends :
    (url : String) (d : Option String) (s : Settings) (ans : Answers) (reads : List Incoming)
    (end : Connected × List Exchange)
    → ans.dialled ≡ d
    → Ends s ans reads end
    → Ends s ans reads (after_dial url d end)
dialled-Ends url (some why) s ans reads end e h = (inl tt, e)
dialled-Ends url none s ans reads end e h = h

-- However connecting ends, the settings of the scenario were sent once or not at all, and only just
-- after a Welcome that was the first text to arrive. A call that is connected read that Welcome, sent
-- the settings, and then read their acknowledgement before any error; the request is the one that the
-- Welcome named. A refusal names the step that failed, and its reason: the dial, the first text, its
-- kind, the encoder, the sending, or a read or an error before the acknowledgement. Connecting goes on
-- only while no text came, or no error or acknowledgement after the Welcome.
pub connect-Shaken :
    (target : Target) (rate : ℕ) (url : String) (ans : Answers) (reads : List Incoming)
    → Ends (build_settings target rate) ans reads (connect target rate url ans reads)
unfolding connect
connect-Shaken target rate url ans reads =
    dialled-Ends (if str_eq url "" then default_url else url) ans.dialled _ ans reads _ refl (
      welcomed-Ends ans (build_settings target rate) reads (read_json reads).0 (read_json reads).1
        (read_json-ReadAs reads))
