-- ===== src/Worker/Reader/Playout.antt =====
-- When the audio of a reply has played out, by internal/worker/worker.go, `readLoop`.
use callstorm.Prelude.{
  ℕ, suc, ◌≡◌, refl, sym, ◌∙◌, ap, ℤ, pos, ◌+ℤ◌, ltb_ℤ, +ℤ_parts, eq_of_parts, String, str_eq, Bool,
  true, false, Option, none, some, List, [], ◌∷◌, ◌++◌, if◌then◌else◌, if_intro, All, count_if,
  count_if-append, length, arith,
}
use callstorm.Metrics.Log.{Event, mark_at, mark_bytes}
use callstorm.Metrics.Log as Log
use callstorm.Audio.Onset.{Onset, write}
use callstorm.Worker.Turn.{SrvEvent, agent_audio_done}
use callstorm.Worker.Reader.{
  ServerMessage, Frame, binary, unreadable, message, Arrival, ChunkMark, Reading, Meaning,
  user_started, conversation, thinking, started, audio_done, failed, warning, unknown, meaning,
  emit, mark, duration, begin_reply, hear_found, seek_sound, reach, play, read_audio, read_message,
  read_frame, read_all,
}

abbrev pub max_ℤ : ℤ → ℤ → ℤ
max_ℤ a b = if ltb_ℤ a b then b else a

max-swap : (x y z : ℤ) → max_ℤ z (max_ℤ x y) ≡ max_ℤ x (max_ℤ z y)
max-swap x y z = ground arith

+ℤ_assoc : (a b c : ℤ) → (a +ℤ b) +ℤ c ≡ a +ℤ (b +ℤ c)
+ℤ_assoc a b c =
    eq_of_parts _ _
      (omega (arith, +ℤ_parts a b, +ℤ_parts (a +ℤ b) c, +ℤ_parts b c, +ℤ_parts a (b +ℤ c)))

+ℤ_zero : (a : ℤ) → a +ℤ pos 0 ≡ a
unfolding ◌+ℤ◌
+ℤ_zero a = ground arith

zero_+ℤ : (a : ℤ) → pos 0 +ℤ a ≡ a
unfolding ◌+ℤ◌
zero_+ℤ a = ground arith

ltb-add : (a b c : ℤ) → ltb_ℤ (a +ℤ c) (b +ℤ c) ≡ ltb_ℤ a b
ltb-add a b c = ground (arith, +ℤ_parts a c, +ℤ_parts b c)

max-add : (a b c : ℤ) → max_ℤ a b +ℤ c ≡ max_ℤ (a +ℤ c) (b +ℤ c)
max-add a b c =
    if_intro (λ (v : ℤ). v +ℤ c ≡ max_ℤ (a +ℤ c) (b +ℤ c)) (ltb_ℤ a b) b a
      (λ e. rw (ltb-add a b c, e) refl) (λ e. rw (ltb-add a b c, e) refl)

max_comm : (x y : ℤ) → max_ℤ x y ≡ max_ℤ y x
max_comm x y = ground arith

module _ (rate : ℕ) where
  abbrev pub played : Frame → ℤ
  played (binary pcm) = duration rate pcm
  played unreadable = pos 0
  played (message m) = pos 0

  -- What the audio of some arrivals takes to play.
  abbrev pub total : List Arrival → ℤ
  total [] = pos 0
  total (a ∷ more) = played a.frame +ℤ total more

  abbrev pub at_sound : Frame → ℤ → ℤ → ℤ
  at_sound (binary pcm) ends latest = max_ℤ ends latest
  at_sound unreadable ends latest = latest
  at_sound (message m) ends latest = latest

  -- The latest of an instant and, for each chunk, its arrival and all the audio from it on.
  abbrev pub latest : ℤ → List Arrival → ℤ
  latest from [] = from
  latest from (a ∷ more) = at_sound a.frame (a.at +ℤ total (a ∷ more)) (latest from more)

  at_sound-max : (f : Frame) (z x y : ℤ) → at_sound f z (max_ℤ y x) ≡ max_ℤ y (at_sound f z x)
  at_sound-max (binary pcm) z x y = max-swap y x z
  at_sound-max unreadable z x y = refl
  at_sound-max (message m) z x y = refl

  latest-max : (x y : ℤ) (more : List Arrival) → latest (max_ℤ x y) more ≡ max_ℤ y (latest x more)
  latest-max x y [] = max_comm x y
  latest-max x y (a ∷ more) =
      ap (at_sound a.frame (a.at +ℤ total (a ∷ more))) (latest-max x y more)
      ∙ at_sound-max a.frame (a.at +ℤ total (a ∷ more)) (latest x more) y

  -- A chunk that arrives at `at` while the audio before it ends at `e`.
  latest-chunk :
      (e at d : ℤ) (more : List Arrival)
      → latest ((max_ℤ e at +ℤ d) +ℤ total more) more
        ≡ max_ℤ (at +ℤ (d +ℤ total more)) (latest (e +ℤ (d +ℤ total more)) more)
  latest-chunk e at d more =
      ap (λ (v : ℤ). latest v more)
        (+ℤ_assoc (max_ℤ e at) d (total more) ∙ max-add e at (d +ℤ total more))
      ∙ latest-max (e +ℤ (d +ℤ total more)) (at +ℤ (d +ℤ total more)) more

abbrev pub is_done : Meaning → Bool
is_done audio_done = true
is_done user_started = false
is_done conversation = false
is_done thinking = false
is_done started = false
is_done failed = false
is_done warning = false
is_done unknown = false

-- Whether an arrival ends the reply.
abbrev pub ends_reply : Frame → Bool
ends_reply (binary pcm) = false
ends_reply unreadable = false
ends_reply (message m) = is_done (meaning m.msg_type)

abbrev pub announces : Log.Kind → Bool
announces Log.agent_first_audio = true
announces _ = false

abbrev pub is_first_audio : Event → Bool
is_first_audio e = announces e.kind

-- Within a reply: the audio ends at `end`, and its beginning is not marked again.
record Within (log : List Event) (end : ℤ) (r : Reading) : Type 0 where
  on : r.speaking ≡ true
  plays_to : r.playout_end ≡ end
  once : count_if is_first_audio r.log ≡ count_if is_first_audio log

moved : (log : List Event) (s t : ℤ) (r : Reading) → s ≡ t → Within log s r → Within log t r
moved log s t r e v = record { on = v.on; plays_to = v.plays_to ∙ e; once = v.once }

mark_quiet :
    (hundredths : ℤ → ℤ) (at : ℤ) (k : Log.Kind) (turn : ℕ) (text : String) (log : List Event)
    → announces k ≡ false
    → count_if is_first_audio (mark_at hundredths at k turn text log) ≡ count_if is_first_audio log
unfolding mark_at
mark_quiet hundredths at k turn text log e =
    count_if-append is_first_audio log _ ∙ rw (e) (omega arith)

module _ (rate : ℕ) (limit_of : ℕ → ℕ) (hundredths : ℤ → ℤ) (offset : ℤ → ℤ) (spoken : ℤ → String)
    (log : List Event) where
  mark-Within :
      (a : Arrival) (k : Log.Kind) (text : String) (end : ℤ) (r : Reading)
      → announces k ≡ false
      → Within log end r
      → Within log end (mark rate limit_of hundredths offset spoken a k text r)
  mark-Within a k text end r e v = record {
    on = v.on;
    plays_to = v.plays_to;
    once = mark_quiet hundredths a.marked k a.turn text r.log e ∙ v.once;
  }

  emit-Within :
      (room : Bool) (ev : SrvEvent) (end : ℤ) (r : Reading)
      → Within log end r
      → Within log end (emit room ev r)
  emit-Within room ev end r v = record { on = v.on; plays_to = v.plays_to; once = v.once }

  hear_found-Within :
      (a : Arrival) (o : Onset) (ms : List ChunkMark) (end : ℤ) (r : Reading)
      → Within log end r
      → Within log end (hear_found rate limit_of hundredths offset spoken a o ms r)
  hear_found-Within a o [] end r v = v
  hear_found-Within a o (first ∷ more) end r v =
      if_intro (Within log end) o.found _ _
        (λ e. record {
          on = v.on;
          plays_to = v.plays_to;
          once = mark_quiet hundredths _ _ _ _ r.log refl ∙ v.once;
        })
        (λ e. v)

  seek_sound-Within :
      (a : Arrival) (pcm : List ℕ) (o : Option Onset) (end : ℤ) (r : Reading)
      → Within log end r
      → Within log end (seek_sound rate limit_of hundredths offset spoken a pcm o r)
  unfolding seek_sound
  seek_sound-Within a pcm none end r v = v
  seek_sound-Within a pcm (some o) end r v =
      hear_found-Within a (write o pcm) _ end _
        (record { on = v.on; plays_to = v.plays_to; once = v.once })

  play-Within :
      (pcm : List ℕ) (end : ℤ) (r : Reading)
      → Within log end r
      → Within log (end +ℤ duration rate pcm) (play rate limit_of hundredths offset spoken pcm r)
  unfolding play
  play-Within pcm end r v = record {
    on = v.on;
    plays_to = ap (λ (t : ℤ). t +ℤ duration rate pcm) v.plays_to;
    once = v.once;
  }

  read_audio-Within :
      (a : Arrival) (pcm : List ℕ) (end : ℤ) (r : Reading)
      → Within log end r
      → Within log
          (max_ℤ end a.at +ℤ duration rate pcm)
          (read_audio rate limit_of hundredths offset spoken a pcm r)
  unfolding read_audio begin_reply
  read_audio-Within a pcm end r v = play-Within pcm (max_ℤ end a.at) _ (
      seek_sound-Within a pcm _ (max_ℤ end a.at) _ (
        if_intro
          (λ (b : Reading).
            Within log (max_ℤ end a.at) (reach rate limit_of hundredths offset spoken a.at b))
          r.speaking _ _
          (λ e. record {
            on = v.on;
            plays_to = ap (λ (t : ℤ). max_ℤ t a.at) v.plays_to;
            once = v.once;
          })
          (λ e. cc)))

  read_message-Within :
      (a : Arrival) (m : ServerMessage) (k : Meaning) (end : ℤ) (r : Reading)
      → is_done k ≡ false
      → Within log end r
      → Within log end (read_message rate limit_of hundredths offset spoken a m k r)
  unfolding read_message
  read_message-Within a m user_started end r h v =
      emit-Within a.room _ end _ (mark-Within a _ _ end r refl v)
  read_message-Within a m conversation end r h v =
      if_intro (Within log end) (str_eq m.role "user") _ _
        (λ e. emit-Within a.room _ end _ (mark-Within a _ _ end r refl v))
        (λ e. emit-Within a.room _ end _ (mark-Within a _ _ end r refl v))
  read_message-Within a m thinking end r h v =
      emit-Within a.room _ end _ (mark-Within a _ _ end r refl v)
  read_message-Within a m started end r h v =
      emit-Within a.room _ end _ (mark-Within a _ _ end r refl v)
  read_message-Within a m audio_done end r h v = cc
  read_message-Within a m failed end r h v =
      emit-Within a.room _ end _ (mark-Within a _ _ end r refl v)
  read_message-Within a m warning end r h v = mark-Within a _ _ end r refl v
  read_message-Within a m unknown end r h v = v

  -- Through arrivals that do not end the reply.
  read_all-Within :
      (more : List Arrival) (end : ℤ) (r : Reading)
      → All (λ (a : Arrival). ends_reply a.frame ≡ false) more
      → Within log end r
      → Within log
          (latest rate (end +ℤ total rate more) more)
          (read_all rate limit_of hundredths offset spoken more r)
  unfolding read_all
  read_all-Within [] end r h v = moved log _ _ r (sym (+ℤ_zero end)) v
  read_all-Within (a ∷ more) end r (h, hs) v =
      step a.frame h (λ next w. read_all-Within more next _ hs w)
    where
      step :
          (f : Frame)
          → ends_reply f ≡ false
          → ((next : ℤ)
              → Within log next (read_frame rate limit_of hundredths offset spoken a f r)
              → Within log (latest rate (next +ℤ total rate more) more) (
                  read_all rate limit_of hundredths offset spoken more
                    (read_frame rate limit_of hundredths offset spoken a f r)))
          → Within log
              (at_sound rate f
                (a.at +ℤ (played rate f +ℤ total rate more))
                (latest rate (end +ℤ (played rate f +ℤ total rate more)) more))
              (read_all rate limit_of hundredths offset spoken more
                (read_frame rate limit_of hundredths offset spoken a f r))
      step (binary pcm) e go =
          moved log _ _ _ (latest-chunk rate end a.at (duration rate pcm) more)
            (go _ (read_audio-Within a pcm end r v))
      step unreadable e go =
          moved log _ _ _
            (ap (λ (t : ℤ). latest rate (end +ℤ t) more) (sym (zero_+ℤ (total rate more))))
            (go end v)
      step (message m) e go =
          moved log _ _ _
            (ap (λ (t : ℤ). latest rate (end +ℤ t) more) (sym (zero_+ℤ (total rate more))))
            (go end (read_message-Within a m (meaning m.msg_type) end r e v))

max_self : (a : ℤ) → max_ℤ a a ≡ a
max_self a = ground arith

-- What the turn loop is told at the end of a reply.
abbrev pub done_event : Arrival → ℤ → SrvEvent
done_event a end = record { kind = agent_audio_done; at = a.marked; text = ""; playout = end }

-- An arrival with audio, and one with a message.
abbrev pub with_audio : Arrival → List ℕ → Arrival
with_audio a pcm = record a { frame = binary pcm }

abbrev pub with_message : Arrival → ServerMessage → Arrival
with_message a m = record a { frame = message m }

-- The instant at which the audio of a reply has played, if each chunk plays when it has arrived and
-- the one before it is over.
abbrev pub drained : ℕ → Arrival → List Arrival → ℤ
drained rate first more = latest rate (first.at +ℤ total rate (first ∷ more)) more

module _ (rate : ℕ) (limit_of : ℕ → ℕ) (hundredths : ℤ → ℤ) (offset : ℤ → ℤ)
    (spoken : ℤ → String) where
  abbrev reads : List Arrival → Reading → Reading
  reads = read_all rate limit_of hundredths offset spoken

  read_all-append :
      (xs ys : List Arrival) (r : Reading) → reads (xs ++ ys) r ≡ reads ys (reads xs r)
  unfolding read_all
  read_all-append [] ys r = refl
  read_all-append (a ∷ xs) ys r = read_all-append xs ys _

  first-Within :
      (a : Arrival) (pcm : List ℕ) (r : Reading)
      → r.speaking ≡ false
      → Within
          (mark_bytes hundredths a.marked Log.agent_first_audio a.turn (length pcm) r.log)
          (a.at +ℤ duration rate pcm)
          (read_audio rate limit_of hundredths offset spoken a pcm r)
  unfolding read_audio begin_reply
  first-Within a pcm r off = play-Within rate limit_of hundredths offset spoken log pcm a.at _ (
      seek_sound-Within rate limit_of hundredths offset spoken log a pcm _ a.at _ (
        if_intro
          (λ (b : Reading). Within log a.at (reach rate limit_of hundredths offset spoken a.at b))
          r.speaking _ _ (λ e. cc)
          (λ e. record { on = refl; plays_to = max_self a.at; once = refl })))
    where
      log : List Event
      log = mark_bytes hundredths a.marked Log.agent_first_audio a.turn (length pcm) r.log

  mark_bytes_lem :
      (at : ℤ) (turn n : ℕ) (log : List Event)
      → count_if is_first_audio (mark_bytes hundredths at Log.agent_first_audio turn n log)
        ≡ suc (count_if is_first_audio log)
  unfolding mark_bytes
  mark_bytes_lem at turn n log = count_if-append is_first_audio log _ ∙ omega arith

  done_lem :
      (a : Arrival) (m : ServerMessage) (r : Reading)
      → meaning m.msg_type ≡ audio_done
      → a.room ≡ true
      → (reads (with_message a m ∷ []) r).emitted ≡ r.emitted ++ (done_event a r.playout_end ∷ [])
  unfolding read_all read_message
  done_lem a m r e room = rw (e, room) refl

  -- When the message that ends a reply comes while no other reply did and the channel has room, the
  -- turn loop is told that the reply's audio ends at the latest, over its chunks, of the chunk's
  -- arrival and all the audio from it on; and the beginning of the reply was marked once.
  pub reply-Playout :
      (first : Arrival) (pcm : List ℕ) (more : List Arrival) (last : Arrival) (m : ServerMessage)
      (r : Reading)
      → r.speaking ≡ false
      → All (λ (a : Arrival). ends_reply a.frame ≡ false) more
      → meaning m.msg_type ≡ audio_done
      → last.room ≡ true
      → (count_if is_first_audio (reads (with_audio first pcm ∷ more) r).log
          ≡ suc (count_if is_first_audio r.log))
        × ((reads (with_audio first pcm ∷ (more ++ (with_message last m ∷ []))) r).emitted
            ≡ (reads (with_audio first pcm ∷ more) r).emitted
              ++ (done_event last (drained rate (with_audio first pcm) more) ∷ []))
  unfolding read_all
  reply-Playout first pcm more last m r off h e room =
      let start = with_audio first pcm in
      let v =
        moved _ _ _ _
          (ap (λ (t : ℤ). latest rate t more)
            (+ℤ_assoc first.at (duration rate pcm) (total rate more)))
          (read_all-Within rate limit_of hundredths offset spoken _ more _ _ h
            (first-Within start pcm r off)) in
      (
        v.once ∙ mark_bytes_lem first.marked first.turn (length pcm) r.log,
        ap (λ (s : Reading). s.emitted)
              (read_all-append (start ∷ more) (with_message last m ∷ []) r)
            ∙ done_lem last m (reads (start ∷ more) r) e room
            ∙ ap (λ (t : ℤ). (reads (start ∷ more) r).emitted ++ (done_event last t ∷ []))
                v.plays_to,
      )
