-- ===== src/Loadgen/Quality.antt =====
-- internal/loadgen/quality.go: the verdict on doing the job, against the baseline step. A reason is
-- the check with its level, which the source formats with its numbers. Quotients of counts are
-- compared by their products; the epsilon of the source stands for that exactness. A step and its
-- quality are a pair.
pub mod Reasons
use callstorm.Prelude.{
  ℕ, suc, ◌+◌, ◌*◌, ltb, leb, String, str_eq, Bool, true, false, not, ◌&&◌, ◌||◌, ◌==◌, Option,
  none, some, List, [], ◌∷◌, ◌++◌, if◌then◌else◌,
}
use callstorm.Loadgen.Nodes.{NodeStats}
use callstorm.Loadgen.StepReport.{StepReport}
use callstorm.Loadgen.Score.{Report}

pub data Level : Type 0 where
  warned failed : Level

pub data Check : Type 0 where
  failed_turns task_success words_misheard interruptions : Check
  node_check : String → Check

pub record Reason : Type 0 where
  pub check : Check
  pub level : Level

pub data Verdict : Type 0 where
  not_available pass warn fail : Verdict

pub record Quality : Type 0 where
  pub verdict : Verdict
  pub compared : List Check
  pub reasons : List Reason

-- `judge.CallScore`, as far as the verdict goes.
pub record CallScore : Type 0 where
  pub step : String
  pub met : Bool
  pub judged : Bool

abbrev pub min_sample : ℕ
min_sample = 30

abbrev pub warned_verdict : Verdict → Verdict
warned_verdict pass = warn
warned_verdict not_available = not_available
warned_verdict warn = warn
warned_verdict fail = fail

unfoldable pub flag : Check → Level → Quality → Quality
flag c failed q = record q {
  verdict = fail;
  reasons = record { check = c; level = failed } ∷ q.reasons;
}
flag c warned q = record q {
  verdict = warned_verdict q.verdict;
  reasons = q.reasons ++ (record { check = c; level = warned } ∷ []);
}

abbrev pub compare : Check → Quality → Quality
compare c q = record q { compared = q.compared ++ (c ∷ []) }

abbrev pub flag_if : Check → Option Level → Quality → Quality
flag_if c none q = q
flag_if c (some level) q = flag c level q

-- Past one percent of the turns, and past half a percent.
abbrev pub failed_level : StepReport → Option Level
failed_level s =
    if ltb s.turns_total (100 * s.turns_failed)
    then some failed
    else (if ltb (5 * s.turns_total) (1000 * s.turns_failed) then some warned else none)

-- `dropLevel`, of a drop from `b` to `n` in thousandths.
unfoldable pub drop_level : ℕ → ℕ → Option Level
drop_level b n =
    if ltb (n + 100) b then some failed else (if ltb (n + 50) b then some warned else none)

unfoldable pub node_named : List NodeStats → String → Option NodeStats
node_named [] id = none
node_named (n ∷ ns) id = if str_eq n.node id then some n else node_named ns id

abbrev pub check_node : NodeStats → Option NodeStats → Quality → Quality
check_node n none q = q
check_node n (some b) q =
    if ltb n.checked min_sample || ltb b.checked min_sample
    then q
    else flag_if (node_check n.node) (drop_level b.pass_rate n.pass_rate)
        (compare (node_check n.node) q)

unfoldable pub check_nodes : List NodeStats → List NodeStats → Quality → Quality
unfolding node_named drop_level flag
check_nodes [] base q = q
check_nodes (n ∷ ns) base q = check_nodes ns base (check_node n (node_named base n.node) q)

-- `judgedRate`: how many passed, and how many were graded.
unfoldable pub judged_rate : List CallScore → String → ℕ × ℕ
judged_rate [] step = (0, 0)
judged_rate (c ∷ cs) step =
    let (passed, n) = judged_rate cs step in
    if not (str_eq c.step step) || not c.judged
    then (passed, n)
    else (if c.met then suc passed else passed, suc n)

-- `dropLevel` of a drop between two quotients, from `b` to `r`.
abbrev pub drop_of : ℕ × ℕ → ℕ × ℕ → Option Level
drop_of (bp, bn) (rp, rn) =
    if ltb (100 * (rp * bn) + 10 * (rn * bn)) (100 * (bp * rn))
    then some failed
    else (if ltb (100 * (rp * bn) + 5 * (rn * bn)) (100 * (bp * rn)) then some warned else none)

unfoldable pub check_success : ℕ × ℕ → ℕ × ℕ → Quality → Quality
unfolding flag
check_success r b q =
    if leb min_sample r.1 && leb min_sample b.1
    then flag_if task_success (drop_of b r) (compare task_success q)
    else q

abbrev pub level_if_poor : Bool → Bool → Option Level
level_if_poor false poor = none
level_if_poor true true = some failed
level_if_poor true false = some warned

unfoldable pub check_words : StepReport → StepReport → Quality → Quality
unfolding flag
check_words s base q =
    let a = s.wer in
    let b = base.wer in
    let rose =
      ltb (100 * (b.mean_num * a.mean_den) + 2 * (a.mean_den * b.mean_den))
        (100 * (a.mean_num * b.mean_den)) in
    if leb min_sample a.turns && leb min_sample b.turns
    then flag_if words_misheard (level_if_poor rose (ltb (15 * a.mean_den) (100 * a.mean_num)))
        (compare words_misheard q)
    else q

unfoldable pub check_interruptions : StepReport → StepReport → Quality → Quality
unfolding flag
check_interruptions s base q =
    let c = s.conversation in
    let b = base.conversation in
    if leb min_sample c.turns && leb min_sample b.turns
    then flag_if interruptions
        (level_if_poor (ltb (b.interruption_rate + 50) c.interruption_rate)
          (ltb 100 c.interruption_rate))
        (compare interruptions q)
    else q

abbrev pub ungraded : Verdict → Quality
ungraded v = record { verdict = v; compared = []; reasons = [] }

unfoldable pub quality_of : StepReport → StepReport → List CallScore → Quality
unfolding flag check_nodes judged_rate check_success check_words check_interruptions
quality_of s base judged =
    if s.turns_total == 0
    then ungraded not_available
    else check_interruptions s base (
        check_words s base (
          check_success (judged_rate judged s.step.name) (judged_rate judged base.step.name) (
            check_nodes s.nodes base.nodes
              (flag_if failed_turns (failed_level s) (compare failed_turns (ungraded pass))))))

-- `scoreQualityAgainst`.
unfoldable pub score_quality :
    StepReport → List CallScore → List StepReport → List (StepReport × Quality)
unfolding quality_of
score_quality base judged [] = []
score_quality base judged (s ∷ ss) = (s, quality_of s base judged) ∷ score_quality base judged ss

abbrev pub is_fail : Verdict → Bool
is_fail fail = true
is_fail _ = false

-- `QualityBreakpoint`.
unfoldable pub quality_breakpoint : List (StepReport × Quality) → Option StepReport
quality_breakpoint [] = none
quality_breakpoint ((s, q) ∷ rest) = if is_fail q.verdict then some s else quality_breakpoint rest
