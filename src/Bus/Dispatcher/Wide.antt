-- ===== src/Bus/Dispatcher/Wide.antt =====
-- What internal/bus/dispatch.go, `ensureTopics`, makes sure of.
use callstorm.Prelude.{
  ℕ, ◌+◌, ◌-◌, ◌≤◌, ◌≡◌, refl, leb, String, Option, none, some, List, Result, ok, err, Bool-cases,
  inl, inr, arith,
}
use callstorm.Bus.Dispatcher.{
  TopicError, Responses, Admin, TopicsError, assignment_topic, result_topic, assignment_partitions,
  first_error, partitions_of, refused_as, created, widened, unless_refused, create_topic,
  widen_from, described, widen_topic, ensure_topics,
}

-- What the cluster's administration promises of the partitions of each topic: no request takes any
-- away, a listing says how many its topic has, and partitions that were created are there.
pub record IsAdmin {S : Type 0} (admin : Admin S) (width : S → String → ℕ) : Type 0 where
  pub create_keeps :
      (s : S) (n : ℕ) (topic t : String) → width s t ≤ width (admin.create_topics s n topic).0 t
  pub list_keeps : (s : S) (topic t : String) → width s t ≤ width (admin.list_topics s topic).0 t
  pub listed :
      (s : S) (topic : String) (ts : List (String × ℕ))
      → (admin.list_topics s topic).1 ≡ ok ts
      → partitions_of ts topic ≡ width (admin.list_topics s topic).0 topic
  pub add_keeps :
      (s : S) (k : ℕ) (topic t : String) → width s t ≤ width (admin.create_partitions s k topic).0 t
  pub added :
      (s : S) (k : ℕ) (topic : String) (rs : Responses)
      → (admin.create_partitions s k topic).1 ≡ ok rs
      → first_error rs ≡ none
      → width s topic + k ≤ width (admin.create_partitions s k topic).0 topic

module _ {S : Type 0} (admin : Admin S) (width : S → String → ℕ) (laws : IsAdmin admin width) where
  -- Nothing is narrower, and a request that is not refused leaves a topic as wide as asked.
  abbrev pub Widens : String → ℕ → S → S × Option TopicsError → Type 0
  Widens topic want s (t, e) =
      ((u : String) → width s u ≤ width t u) × (e ≡ none → want ≤ width t topic)

  none_of :
      (why : TopicError → TopicsError) (o : Option TopicError) → refused_as why o ≡ none → o ≡ none
  none_of why none e = refl
  none_of why (some x) e = cc

  created-Widens :
      (topic : String) (s : S) (p : S × Result String Responses)
      → ((u : String) → width s u ≤ width p.0 u)
      → Widens topic 0 s (created topic p)
  created-Widens topic s (t, err why) keeps = (keeps, λ e. cc)
  created-Widens topic s (t, ok rs) keeps = (keeps, λ e. omega arith)

  create_topic-Widens :
      (s : S) (topic : String) (n : ℕ) → Widens topic 0 s (create_topic admin s topic n)
  unfolding create_topic
  create_topic-Widens s topic n =
      created-Widens topic s (admin.create_topics s n topic) (λ u. laws.create_keeps s n topic u)

  widened-Widens :
      (topic : String) (want : ℕ) (s : S) (p : S × Result String Responses)
      → ((u : String) → width s u ≤ width p.0 u)
      → ((rs : Responses) → p.1 ≡ ok rs → first_error rs ≡ none → want ≤ width p.0 topic)
      → Widens topic want s (widened topic p)
  widened-Widens topic want s (t, err why) keeps wide = (keeps, λ e. cc)
  widened-Widens topic want s (t, ok rs) keeps wide =
      (keeps, λ e. wide rs refl (none_of _ (first_error rs) e))

  widen_from-Widens :
      (topic : String) (want have : ℕ) (s : S)
      → have ≡ width s topic
      → Widens topic want s (widen_from admin topic want have s)
  widen_from-Widens topic want have s same = elim (Bool-cases (leb want have)) [
    | inl q ↦ rw (q) ((λ u. omega arith), λ e. ground (arith, q, same))
    | inr q ↦ rw (q) (
        widened-Widens topic want s (admin.create_partitions s (want - have) topic)
          (λ u. laws.add_keeps s (want - have) topic u)
          (λ rs done fine. omega (arith, laws.added s (want - have) topic rs done fine, same)))
  ]

  Widens-after :
      (topic : String) (want : ℕ) (s t : S) (p : S × Option TopicsError)
      → ((u : String) → width s u ≤ width t u)
      → Widens topic want t p
      → Widens topic want s p
  Widens-after topic want s t (v, e) keeps (more, wide) =
      (λ u. omega (arith, keeps u, more u), wide)

  described-Widens :
      (topic : String) (want : ℕ) (s : S) (p : S × Result String (List (String × ℕ)))
      → ((u : String) → width s u ≤ width p.0 u)
      → ((ts : List (String × ℕ)) → p.1 ≡ ok ts → partitions_of ts topic ≡ width p.0 topic)
      → Widens topic want s (described admin topic want p)
  described-Widens topic want s (t, err why) keeps said = (keeps, λ e. cc)
  described-Widens topic want s (t, ok ts) keeps said =
      Widens-after topic want s t (widen_from admin topic want (partitions_of ts topic) t) keeps
        (widen_from-Widens topic want (partitions_of ts topic) t (said ts refl))

  widen_topic-Widens :
      (s : S) (topic : String) (want : ℕ) → Widens topic want s (widen_topic admin s topic want)
  unfolding widen_topic
  widen_topic-Widens s topic want =
      described-Widens topic want s (admin.list_topics s topic) (λ u. laws.list_keeps s topic u)
        (λ ts e. laws.listed s topic ts e)

  -- What one step widened stays so after the next.
  then-Widens :
      (topic other_topic : String) (want least : ℕ) (s : S) (p : S × Option TopicsError)
      (next : S → S × Option TopicsError)
      → Widens topic want s p
      → ((t : S) → Widens other_topic least t (next t))
      → Widens topic want s (unless_refused p next)
  then-Widens topic other_topic want least s (t, some e) next (keeps, wide) go = (keeps, λ f. cc)
  then-Widens topic other_topic want least s (t, none) next (keeps, wide) go =
      let (more, least_wide) = go t in
      (λ u. omega (arith, keeps u, more u), λ e. omega (arith, wide refl, more topic))

  ensure_topics-Widens :
      (s : S) → Widens assignment_topic assignment_partitions s (ensure_topics admin s)
  unfolding ensure_topics
  ensure_topics-Widens s =
      go (create_topic admin s assignment_topic assignment_partitions)
        (create_topic-Widens s assignment_topic assignment_partitions)
    where
      rest : S → S × Option TopicsError
      rest t =
          unless_refused (widen_topic admin t assignment_topic assignment_partitions)
            (λ (u : S). create_topic admin u result_topic 1)

      go :
          (p : S × Option TopicsError)
          → Widens assignment_topic 0 s p
          → Widens assignment_topic assignment_partitions s (unless_refused p rest)
      go (t, some e) (keeps, wide) = (keeps, λ f. cc)
      go (t, none) (keeps, wide) =
          Widens-after assignment_topic assignment_partitions s t (rest t) keeps (
            then-Widens assignment_topic result_topic assignment_partitions 0 t
              (widen_topic admin t assignment_topic assignment_partitions)
              (λ u. create_topic admin u result_topic 1)
              (widen_topic-Widens t assignment_topic assignment_partitions)
              (λ u. create_topic-Widens u result_topic 1))

  -- Over a cluster whose administration does as it promises, making sure of the topics without an
  -- error leaves the assignment topic at least twelve partitions, whatever it had, and no topic fewer
  -- than before.
  pub ensure_topics-Wide :
      (s : S)
      → (ensure_topics admin s).1 ≡ none
      → (assignment_partitions ≤ width (ensure_topics admin s).0 assignment_topic)
        × ((u : String) → width s u ≤ width (ensure_topics admin s).0 u)
  ensure_topics-Wide s done = let (keeps, wide) = ensure_topics-Widens s in (wide done, keeps)
