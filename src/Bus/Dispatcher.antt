-- ===== src/Bus/Dispatcher.antt =====
-- internal/bus/dispatch.go, `Dispatcher`: the topics that it makes sure of, and the results that it
-- polls. The administration of the cluster is an interface of the Kafka client's: its operations on
-- the state of a cluster, which `Width` reads as each topic's partitions.
pub mod Wide
use callstorm.Prelude.{
  ℕ, ◌-◌, leb, ℤ, String, str_eq, Bool, true, false, Option, none, some, List, [], ◌∷◌,
  if◌then◌else◌, Result, ok, err,
}
use callstorm.Metrics.Turn.{TurnMetric}
use callstorm.Metrics.Mirror.{Mirrors, rehydrate}
use callstorm.Bus.Worker.{Error, CallResult, Fetch, fetch_err, records, cancelled, deadline}

-- What is said of one topic of a request.
pub data TopicError : Type 0 where
  already_exists : TopicError
  other : String → TopicError

abbrev pub Responses : Type 0
Responses = List (Option TopicError)

-- The calls of `kadm` that the dispatcher makes. A listing names topics with their partitions.
pub record Admin (S : Type 0) : Type 0 where
  pub create_topics : S → ℕ → String → S × Result String Responses
  pub list_topics : S → String → S × Result String (List (String × ℕ))
  pub create_partitions : S → ℕ → String → S × Result String Responses

pub data TopicsError : Type 0 where
  not_created : String → String → TopicsError
  create_refused : String → TopicError → TopicsError
  not_described : String → String → TopicsError
  not_widened : String → String → TopicsError
  widen_refused : String → TopicError → TopicsError

abbrev pub assignment_topic : String
assignment_topic = "callstorm.assignments"

abbrev pub result_topic : String
result_topic = "callstorm.results"

abbrev pub assignment_partitions : ℕ
assignment_partitions = 12

-- The first error of a creation, but for topics that are there already.
unfoldable pub refused_creation : Responses → Option TopicError
refused_creation [] = none
refused_creation (none ∷ rs) = refused_creation rs
refused_creation (some already_exists ∷ rs) = refused_creation rs
refused_creation (some (other why) ∷ rs) = some (other why)

unfoldable pub first_error : Responses → Option TopicError
first_error [] = none
first_error (none ∷ rs) = first_error rs
first_error (some e ∷ rs) = some e

-- `len(details[topic].Partitions)`.
unfoldable pub partitions_of : List (String × ℕ) → String → ℕ
partitions_of [] topic = 0
partitions_of ((t, n) ∷ ts) topic =
    let rest = partitions_of ts topic in if str_eq t topic then n else rest

abbrev pub refused_as : (TopicError → TopicsError) → Option TopicError → Option TopicsError
refused_as why none = none
refused_as why (some e) = some (why e)

abbrev pub created : {S : Type 0} → String → S × Result String Responses → S × Option TopicsError
created topic (s, err why) = (s, some (not_created topic why))
created topic (s, ok rs) = (s, refused_as (create_refused topic) (refused_creation rs))

abbrev pub widened : {S : Type 0} → String → S × Result String Responses → S × Option TopicsError
widened topic (s, err why) = (s, some (not_widened topic why))
widened topic (s, ok rs) = (s, refused_as (widen_refused topic) (first_error rs))

-- `if err != nil { return err }`.
abbrev pub unless_refused :
    {S : Type 0} → S × Option TopicsError → (S → S × Option TopicsError) → S × Option TopicsError
unless_refused (s, some e) next = (s, some e)
unless_refused (s, none) next = next s

module _ {S : Type 0} (admin : Admin S) where
  unfoldable pub create_topic : S → String → ℕ → S × Option TopicsError
  unfolding refused_creation
  create_topic s topic partitions = created topic (admin.create_topics s partitions topic)

  abbrev pub widen_from : String → ℕ → ℕ → S → S × Option TopicsError
  widen_from topic want have s =
      if leb want have
      then (s, none)
      else widened topic (admin.create_partitions s (want - have) topic)

  abbrev pub described : String → ℕ → S × Result String (List (String × ℕ)) → S × Option TopicsError
  described topic want (s, err why) = (s, some (not_described topic why))
  described topic want (s, ok ts) = widen_from topic want (partitions_of ts topic) s

  unfoldable pub widen_topic : S → String → ℕ → S × Option TopicsError
  unfolding partitions_of first_error
  widen_topic s topic want = described topic want (admin.list_topics s topic)

  -- `ensureTopics`.
  unfoldable pub ensure_topics : S → S × Option TopicsError
  unfolding create_topic widen_topic
  ensure_topics s =
      unless_refused (create_topic s assignment_topic assignment_partitions) (λ (t : S).
        unless_refused (widen_topic t assignment_topic assignment_partitions)
          (λ (u : S). create_topic u result_topic 1))

-- A result as it is decoded, with the mirrors of its turns.
pub record Received : Type 0 where
  pub result : CallResult
  pub mirrors : List Mirrors

unfoldable pub rehydrate_all : (ℤ → ℤ) → List Mirrors → List TurnMetric → List TurnMetric
unfolding rehydrate
rehydrate_all from_millis [] ts = ts
rehydrate_all from_millis (m ∷ ms) [] = []
rehydrate_all from_millis (m ∷ ms) (t ∷ ts) =
    rehydrate from_millis m t ∷ rehydrate_all from_millis ms ts

abbrev pub rehydrated : (ℤ → ℤ) → Received → CallResult
rehydrated from_millis r = record r.result {
  turns = rehydrate_all from_millis r.mirrors r.result.turns;
}

module _ {ℓ} {V : Type ℓ} (decode : V → Option Received) (from_millis : ℤ → ℤ) (run : String) where
  -- The callback of `EachRecord`.
  abbrev pub take_own : Option Received → List CallResult → List CallResult
  take_own none more = more
  take_own (some r) more = if str_eq r.result.run run then rehydrated from_millis r ∷ more else more

  unfoldable pub own_results : List (ℕ × V) → List CallResult
  unfolding rehydrate_all
  own_results [] = []
  own_results ((at, v) ∷ vs) = take_own (decode v) (own_results vs)

  -- `Results`.
  unfoldable pub results : Fetch V → Result Error (List CallResult)
  unfolding own_results
  results (fetch_err cancelled) = ok []
  results (fetch_err deadline) = ok []
  results (fetch_err e) = err e
  results (records vs) = ok (own_results vs)
