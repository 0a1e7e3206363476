-- ===== src/Supervisor/TaskRun/Retries.antt =====
-- The calls that the retry loop makes, and the fuel that they take.
use formicary.Common.{
  String, ℕ, zero, suc, ◌≡◌, ◌+◌, ◌-◌, ◌<◌, ◌≤◌, ◌⊎◌, inl, inr, refl, subst, Bool, true, false,
  arith, Option, some, is_some, ◌||◌, Option-cases, Bool-cases, leb,
}
use formicary.Types.RequestState.{◌is◌, executing}
use formicary.Supervisor.TaskRun.{
  Machine, Calls, TaskResponse, retry_loop, update_task_from_response, count_retry, stops,
  can_retry,
}

-- The machine after a response, and the error.
abbrev respond : Calls → TaskResponse → Machine → Option String × Machine
respond c r m = update_task_from_response c.matching c.services r m

-- No response from the k-th call on says that the task is still executing.
abbrev pub SettlesAt : ℕ → Calls → Type 0
SettlesAt k c =
    (n : ℕ) (r : TaskResponse) → k ≤ n → c.response n ≡ some r → (r.status is executing) ≡ false

-- The retries that the definition leaves.
abbrev pub left : Machine → ℕ
left m = m.definition.retry + 1 - m.execution.retried

respond-left : (c : Calls) (r : TaskResponse) (m : Machine) → left (respond c r m).1 ≡ left m
unfolding update_task_from_response
respond-left c r m = refl

respond-retry :
    (c : Calls) (r : TaskResponse) (m : Machine)
    → ((respond c r m).1.definition.retry ≡ m.definition.retry)
      × ((respond c r m).1.execution.retried ≡ m.execution.retried)
unfolding update_task_from_response
respond-retry c r m = (refl, refl)

-- A response after which the loop goes on is an executing one, or leaves fewer retries.
goes_on :
    (c : Calls) (r : TaskResponse) (m : Machine)
    → stops r (respond c r m).0 (respond c r m).1 ≡ false
    → ((r.status is executing) ≡ true) ⊎ (m.execution.retried < m.definition.retry)
goes_on c r m h =
    let (a, b) = respond-retry c r m in
    elim (Bool-cases (r.status is executing)) [
      | inl busy ↦ inl busy
      | inr settled ↦ inr (ground arith)
    ]

busy_before :
    (c : Calls) (k n : ℕ) (r : TaskResponse)
    → SettlesAt k c
    → c.response n ≡ some r
    → (r.status is executing) ≡ true
    → n < k
busy_before c k n r settles came busy = elim (Bool-cases (leb k n)) [
  | inr before ↦ ground arith
  | inl after ↦
      let settled : (r.status is executing) ≡ false = settles n r (ground arith) came in
      let clash : true ≡ false = cc in absurd (cc clash)
]

shrinks :
    (c : Calls) (k fuel n : ℕ) (r : TaskResponse) (m : Machine)
    → SettlesAt k c
    → c.response n ≡ some r
    → stops r (respond c r m).0 (respond c r m).1 ≡ false
    → (k - n) + left m + 1 ≤ suc fuel
    → (k - (n + 1)) + left (count_retry (respond c r m).1) + 1 ≤ fuel
shrinks c k fuel n r m settles came going enough =
    let (a, b) = respond-retry c r m in
    elim (goes_on c r m going) [
      | inl busy ↦ let before = busy_before c k n r settles came busy in rw (a, b) (omega arith)
      | inr retries ↦ rw (a, b) (omega arith)
    ]

retry_loop-ends_from :
    (c : Calls) (k fuel n : ℕ) (again : Bool) (m : Machine)
    → SettlesAt k c
    → (k - n) + left m + 1 ≤ fuel
    → is_some (retry_loop c fuel n again m) ≡ true
unfolding retry_loop
retry_loop-ends_from c k zero n again m settles enough = absurd (omega arith)
retry_loop-ends_from c k (suc fuel) n again m settles enough =
    elim (Bool-cases (can_retry m || again)) [
      | inr over ↦ rw (retry_loop, over) refl
      | inl goes ↦
          rw (retry_loop, goes)
            (elim (Option-cases (c.response n)) [
              | inl gone ↦ rw (retry_loop, gone) refl
              | inr (r, came) ↦
                  rw (retry_loop, came)
                    (elim (Bool-cases (stops r (respond c r m).0 (respond c r m).1)) [
                      | inl stop ↦ rw (retry_loop, stop) refl
                      | inr going ↦
                          rw (retry_loop, going)
                            (retry_loop-ends_from c k fuel (n + 1) _ _ settles
                              (shrinks c k fuel n r m settles came going enough))
                    ])
            ])
    ]

-- The retry loop ends when from some call on no response says that the task is still executing: so
-- many calls and one for each attempt that the definition allows are fuel enough.
pub retry_loop-ends :
    (c : Calls) (k : ℕ) (m : Machine)
    → SettlesAt k c
    → is_some (retry_loop c (k + left m + 1) 0 true m) ≡ true
retry_loop-ends c k m settles = retry_loop-ends_from c k _ 0 true m settles (omega arith)

-- The calls that the loop may still make.
abbrev pub attempts : Machine → ℕ
attempts m = m.definition.retry - m.execution.retried + 1

ends :
    (out : Machine × ℕ) (calls bound : ℕ) {m : Machine}
    → some (m, calls) ≡ some out
    → calls ≤ bound
    → out.1 ≤ bound
ends out calls bound {m} h le = let same : (m, calls) ≡ out = cc in subst (λ o. o.1 ≤ bound) same le

fewer :
    (c : Calls) (n : ℕ) (r : TaskResponse) (m : Machine) (out : Machine × ℕ)
    → SettlesAt n c
    → c.response n ≡ some r
    → stops r (respond c r m).0 (respond c r m).1 ≡ false
    → out.1 ≤ n + 1 + attempts (count_retry (respond c r m).1)
    → out.1 ≤ n + attempts m
fewer c n r m out settles came going le =
    let (a, b) = respond-retry c r m in
    elim (goes_on c r m going) [
      | inl busy ↦ let before = busy_before c n n r settles came busy in omega arith
      | inr retries ↦ let le1 = rw (a, b) at le in omega arith
    ]

retry_loop-calls_from :
    (c : Calls) (fuel n : ℕ) (again : Bool) (m : Machine) (out : Machine × ℕ)
    → SettlesAt n c
    → retry_loop c fuel n again m ≡ some out
    → out.1 ≤ n + attempts m
unfolding retry_loop
retry_loop-calls_from c zero n again m out settles h = absurd (cc h)
retry_loop-calls_from c (suc fuel) n again m out settles h =
    elim (Bool-cases (can_retry m || again)) [
      | inr over ↦ ends out n _ (rw (retry_loop, over) at h) (omega arith)
      | inl goes ↦ elim (Option-cases (c.response n)) [
        | inl gone ↦ ends out (n + 1) _ (rw (retry_loop, goes, gone) at h) (omega arith)
        | inr (r, came) ↦ elim (Bool-cases (stops r (respond c r m).0 (respond c r m).1)) [
          | inl stop ↦ ends out (n + 1) _ (rw (retry_loop, goes, came, stop) at h) (omega arith)
          | inr going ↦ fewer c n r m out settles came going (
              retry_loop-calls_from c fuel (n + 1) _ _ out (λ i s le. settles i s (omega arith))
                (rw (retry_loop, goes, came, going) at h))
        ]
      ]
    ]

-- When no response says that the task is still executing, the loop ends after at most one call more
-- than the retries that the definition leaves, whatever error code matched.
pub retry_loop-calls :
    (c : Calls) (m : Machine)
    → SettlesAt 0 c
    → (out : Machine × ℕ) × (retry_loop c (0 + left m + 1) 0 true m ≡ some out)
      × (out.1 ≤ m.definition.retry - m.execution.retried + 1)
retry_loop-calls c m settles =
    let finished = retry_loop-ends c 0 m settles in
    elim (Option-cases (retry_loop c (0 + left m + 1) 0 true m)) [
      | inl stuck ↦ absurd (cc (rw (stuck) at finished))
      | inr (out, h) ↦
          let le = retry_loop-calls_from c _ 0 true m out settles h in (out, h, omega arith)
    ]
