-- ===== src/Metrics/Log.antt =====
-- internal/metrics/metrics.go: the event log of one call, in the order it was written. An instant is
-- nanoseconds on the call's clock; a stamp is in hundredths of a millisecond, by the rounding
-- `hundredths`. Reading the clock and the mutex are left out.
use callstorm.Prelude.{
  ℕ, ℤ, ◌≡◌, String, List, [], ◌∷◌, ◌++◌, sort_on, Sorted, sort_on-Sorted, filter, of_key,
  filter-sort_on,
}
use callstorm.Metrics.Mirror.{millis}

pub data Kind : Type 0 where
  call_start welcome settings_applied caller_speech_start caller_speech_end : Kind
  caller_yielded agent_yielded user_started_speak user_transcript agent_thinking : Kind
  agent_first_audio agent_started_speak agent_audio_done agent_transcript : Kind
  turn_timeout server_error server_warning call_end transport_ping agent_audible : Kind

pub record Event : Type 0 where
  pub t_ms : ℤ
  pub kind : Kind
  pub turn : ℕ
  pub text : String
  pub bytes : ℕ

module _ (hundredths : ℤ → ℤ) where
  unfoldable pub mark_at : ℤ → Kind → ℕ → String → List Event → List Event
  mark_at at k turn text events =
      events
      ++ (record { t_ms = millis hundredths at; kind = k; turn = turn; text = text; bytes = 0 }
          ∷ [])

  unfoldable pub mark_bytes : ℤ → Kind → ℕ → ℕ → List Event → List Event
  mark_bytes at k turn n events =
      events
      ++ (record { t_ms = millis hundredths at; kind = k; turn = turn; text = ""; bytes = n } ∷ [])

  -- `NewLog`, with what its mark reads from the clock.
  unfoldable pub new_log : ℤ → List Event
  unfolding mark_at
  new_log at = mark_at at call_start 0 "" []

abbrev pub stamp : Event → ℤ
stamp e = e.t_ms

-- `Events`, the sorted copy.
unfoldable pub events : List Event → List Event
events log = sort_on stamp log

-- The copy of a log is sorted by its stamps and holds what was written, events of one stamp in the
-- order in which they were.
pub events-Sorted :
    (log : List Event) (at : ℤ)
    → Sorted stamp (events log)
      × (filter (of_key stamp at) (events log) ≡ filter (of_key stamp at) log)
unfolding events
events-Sorted log at = (sort_on-Sorted stamp log, filter-sort_on stamp at log)
