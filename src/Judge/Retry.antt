-- ===== src/Judge/Retry.antt =====
-- internal/judge/groq.go, `Complete`: one prompt is sent again while the service asks to be left
-- alone. What a request returns, and what happened meanwhile, is an argument, by the number of the
-- attempt. The request's body and its answer's decoding are left out.
use callstorm.Prelude.{
  ℕ, zero, suc, ◌+◌, ◌≤◌, ◌<◌, ◌≡◌, refl, ℤ, pos, ◌+ℤ◌, ltb_ℤ, String, Bool, true, false, not, ◌&&◌,
  ◌||◌, ◌==◌, ==_iff, ◌⊎◌, ◌≢◌, sym, ◌∙◌, and-split, str_eq, Option, none, some, if◌then◌else◌,
  Bool-cases, inl, inr, arith,
}
use mathlib.Core.Path.{subst}

-- A reply or an error, how long to wait, whether the deadline had passed when it came, and whether
-- it passes during the wait.
pub record Sent : Type 0 where
  pub reply : String
  pub failed : Option String
  pub wait : ℤ
  pub expired : Bool
  pub cut_short : Bool

pub data Completed : Type 0 where
  returned : String → Option String → Completed
  timed_out : Completed
  timed_out_waiting : Completed

-- `groqAttempts`.
abbrev pub attempts : ℕ
attempts = 6

abbrev pub is_error : Option String → Bool
is_error none = false
is_error (some why) = true

abbrev pub is_zero : ℤ → Bool
is_zero (pos zero) = true
is_zero (pos (suc n)) = false
is_zero (ℤ.negsuc n) = false

-- Whether the loop returns what it received, in the attempt of a number.
unfoldable pub is_final : ℕ → Sent → Bool
is_final attempt s = not (is_error s.failed) || (is_zero s.wait || (attempt == attempts))

-- The outcome, with the number of requests that were made. The fuel is a bound of the model's.
unfoldable pub send_from : (ℕ → Sent) → ℕ → ℕ → Option (Completed × ℕ)
unfolding is_final
send_from sent attempt zero = none
send_from sent attempt (suc fuel) =
    let s = sent attempt in
    let rest = send_from sent (suc attempt) fuel in
    if is_error s.failed && s.expired
    then some (timed_out, attempt)
    else (if is_final attempt s
        then some (returned s.reply s.failed, attempt)
        else (if s.cut_short then some (timed_out_waiting, attempt) else rest))

unfoldable pub complete : String → (ℕ → Sent) → ℕ → Option (Completed × ℕ)
unfolding send_from
complete api_key sent fuel =
    if str_eq api_key ""
    then some (returned "" (some "GROQ_API_KEY is not set"), 0)
    else send_from sent 1 fuel

-- `retryAfter`, of the wait that the message names and of the header's seconds, in nanoseconds.
abbrev pub margin : ℤ
margin = pos 250_000_000

abbrev pub from_header : Option ℤ → ℤ
from_header none = pos 5_000_000_000
from_header (some d) = if ltb_ℤ (pos 0) d then d +ℤ margin else pos 5_000_000_000

abbrev pub retry_after : Option ℤ → Option ℤ → ℤ
retry_after (some d) header = d +ℤ margin
retry_after none header = from_header header

-- A request that was followed by another: it was refused with a wait, which ran to its end.
pub record IsRetried (s : Sent) : Type 0 where
  pub refused : is_error s.failed ≡ true
  pub in_time : s.expired ≡ false
  pub asked : is_zero s.wait ≡ false
  pub waited : s.cut_short ≡ false

-- What the last request led to: it returned what the request did, which was a reply, an error with no
-- wait or the last attempt there is, or it ran out of time.
abbrev pub Led : ℕ → Sent → Completed → Type 0
Led k s out =
    ((out ≡ returned s.reply s.failed)
      × ((is_error s.failed ≡ false) ⊎ ((is_zero s.wait ≡ true) ⊎ (k ≡ attempts))))
    ⊎ (((out ≡ timed_out) × (s.expired ≡ true))
        ⊎ ((out ≡ timed_out_waiting) × (s.cut_short ≡ true)))

-- The outcome of the last of some requests, where all before it were retried.
pub record Ends (sent : ℕ → Sent) (first : ℕ) (out : Completed × ℕ) : Type 0 where
  pub from : first ≤ out.1
  pub few : out.1 ≤ attempts
  pub retried : (k : ℕ) → first ≤ k → k < out.1 → IsRetried (sent k)
  pub last : Led out.1 (sent out.1) out.0

final_cases :
    (k : ℕ) (s : Sent)
    → is_final k s ≡ true
    → (is_error s.failed ≡ false) ⊎ ((is_zero s.wait ≡ true) ⊎ (k ≡ attempts))
unfolding is_final
final_cases k s e = split (is_error s.failed) (is_zero s.wait) (k == attempts) refl refl refl e
  where
    split :
        (a b c : Bool)
        → is_error s.failed ≡ a
        → is_zero s.wait ≡ b
        → (k == attempts) ≡ c
        → (not a || (b || c)) ≡ true
        → (is_error s.failed ≡ false) ⊎ ((is_zero s.wait ≡ true) ⊎ (k ≡ attempts))
    split false b c p q r f = inl p
    split true true c p q r f = inr (inl q)
    split true false true p q r f = inr (inr ((==_iff k attempts).0 r))
    split true false false p q r f = cc

not_final :
    (k : ℕ) (s : Sent)
    → is_final k s ≡ false
    → (is_error s.failed ≡ true) × (is_zero s.wait ≡ false) × (k ≢ attempts)
unfolding is_final
not_final k s e = ground arith

second : (a b : Bool) → a ≡ true → (a && b) ≡ false → b ≡ false
second true b e f = f
second false b e f = cc

stop :
    (sent : ℕ → Sent) (attempt : ℕ) (out : Completed)
    → attempt ≤ attempts
    → Led attempt (sent attempt) out
    → Ends sent attempt (out, attempt)
stop sent attempt out h l = record {
  from = omega arith;
  few = h;
  retried = λ k low high. absurd (omega (arith, low, high));
  last = l;
}

again :
    (sent : ℕ → Sent) (attempt : ℕ) (out : Completed × ℕ)
    → IsRetried (sent attempt)
    → Ends sent (suc attempt) out
    → Ends sent attempt out
again sent attempt out r v = record {
  from = omega (arith, v.from);
  few = v.few;
  last = v.last;
  retried = λ k low high. elim (Bool-cases (k == attempt)) [
    | inl e ↦ subst (λ (j : ℕ). IsRetried (sent j)) (sym ((==_iff k attempt).0 e)) r
    | inr e ↦ v.retried k (ground (arith, low, e)) high
  ];
}

unrolled :
    (sent : ℕ → Sent) (attempt fuel : ℕ)
    → (is_error (sent attempt).failed && (sent attempt).expired) ≡ false
    → is_final attempt (sent attempt) ≡ false
    → (sent attempt).cut_short ≡ false
    → send_from sent attempt (suc fuel) ≡ send_from sent (suc attempt) fuel
unfolding send_from
unrolled sent attempt fuel e f g = rw (e, f, g) refl

send_from-Ends :
    (sent : ℕ → Sent) (fuel attempt : ℕ)
    → attempt ≤ attempts
    → attempts < attempt + fuel
    → (out : Completed × ℕ) × (send_from sent attempt fuel ≡ some out) × Ends sent attempt out
unfolding send_from
send_from-Ends sent zero attempt h enough = absurd (omega (arith, h, enough))
send_from-Ends sent (suc fuel) attempt h enough =
    elim (Bool-cases (is_error (sent attempt).failed && (sent attempt).expired)) [
      | inl e ↦ (
        (timed_out, attempt),
        rw (e) refl,
        stop sent attempt timed_out h (
            inr (
              inl (refl, (and-split (is_error (sent attempt).failed) (sent attempt).expired e).1))),
      )
      | inr e ↦ elim (Bool-cases (is_final attempt (sent attempt))) [
        | inl f ↦ (
          (returned (sent attempt).reply (sent attempt).failed, attempt),
          rw (e, f) refl,
          stop sent attempt _ h (inl (refl, final_cases attempt (sent attempt) f)),
        )
        | inr f ↦
            let (bad, asked, below) = not_final attempt (sent attempt) f in
            elim (Bool-cases (sent attempt).cut_short) [
              | inl g ↦ (
                (timed_out_waiting, attempt),
                rw (e, f, g) refl,
                stop sent attempt timed_out_waiting h (inr (inr (refl, g))),
              )
              | inr g ↦
                  let (out, same, v) =
                    send_from-Ends sent fuel (suc attempt) (omega (arith, h, below))
                      (omega (arith, enough)) in
                  (
                    out,
                    unrolled sent attempt fuel e f g ∙ same,
                    again sent attempt out
                        (record {
                          refused = bad;
                          in_time =
                              second (is_error (sent attempt).failed) (sent attempt).expired bad e;
                          asked = asked;
                          waited = g;
                        })
                        v,
                  )
            ]
      ]
    ]

-- With a key and fuel for six requests, the loop comes to an end after at most six: each one before
-- the last was refused in time with a wait that ran to its end, and the last one's reply or error is
-- returned, or the time ran out.
pub complete-Ends :
    (api_key : String) (sent : ℕ → Sent) (fuel : ℕ)
    → str_eq api_key "" ≡ false
    → attempts ≤ fuel
    → (out : Completed × ℕ) × (complete api_key sent fuel ≡ some out) × Ends sent 1 out
unfolding complete
complete-Ends api_key sent fuel key enough =
    let (out, same, v) = send_from-Ends sent fuel 1 (omega arith) (omega (arith, enough)) in
    (out, rw (key) same, v)
