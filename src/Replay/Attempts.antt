-- ===== src/Replay/Attempts.antt =====
-- What the attempts of the engine are: the calls of an adapter, and what is known from the answers.
use mathlib.Core.Path.{subst}
use deconstruct.Base.{
  ℕ, zero, suc, ◌+◌, ◌≤◌, ◌<◌, Text, Option, some, List, [], ◌∷◌, ◌≡◌, refl, ◌⊎◌, inl, inr,
  Bool-cases, arith, ltb, length,
}
use deconstruct.Action.{Action, Result-cases}
use deconstruct.Store.{done, failed}
use deconstruct.Replay.Engine.{AdapterResult}
use deconstruct.Replay.Run.{
  Attempt, break_with, continue_with, attempt_once, attempt_loop, unanswered, unrecorded, recorded,
}

-- What comes of one call of an adapter: an error, an answer with its status that is not recorded, or one
-- that is recorded as a flow.
pub data Outcome : Type 0 where
  no_answer : Text → Outcome
  not_stored : ℕ → Text → Outcome
  stored : ℕ → Text → Outcome

-- the status of the last answer, the flow of the last answer, and the last error
abbrev pub latest_status : ℕ → List Outcome → ℕ
latest_status status [] = status
latest_status status (no_answer e ∷ os) = latest_status status os
latest_status status (not_stored s e ∷ os) = latest_status s os
latest_status status (stored s flow_id ∷ os) = latest_status s os

abbrev pub latest_flow : Text → List Outcome → Text
latest_flow flow [] = flow
latest_flow flow (no_answer e ∷ os) = latest_flow flow os
latest_flow flow (not_stored s e ∷ os) = latest_flow [] os
latest_flow flow (stored s flow_id ∷ os) = latest_flow flow_id os

abbrev pub latest_error : Option Text → List Outcome → Option Text
latest_error error [] = error
latest_error error (no_answer e ∷ os) = latest_error (some e) os
latest_error error (not_stored s e ∷ os) = latest_error (some e) os
latest_error error (stored s flow_id ∷ os) = latest_error error os

-- the variables of the loop after a call
abbrev after : Attempt → Outcome → Attempt
after a (no_answer e) = unanswered a e
after a (not_stored status e) = unrecorded a e status
after a (stored status flow_id) = recorded a flow_id status

-- what the variables say of the calls since `a`
abbrev pub Tells : Attempt → List Outcome → Attempt → Type 0
Tells a os b =
    (b.attempts_used ≡ a.attempts_used + length os)
    × (b.response_status ≡ latest_status a.response_status os)
    × (b.replay_flow_id ≡ latest_flow a.replay_flow_id os)
    × (b.last_err ≡ latest_error a.last_err os)

after-Tells :
    (a : Attempt) (o : Outcome) (os : List Outcome) (b : Attempt)
    → Tells (after a o) os b
    → Tells a (o ∷ os) b
after-Tells a (no_answer e) os b (n, s, f, l) = (omega (arith, n), s, f, l)
after-Tells a (not_stored status e) os b (n, s, f, l) = (omega (arith, n), s, f, l)
after-Tells a (stored status flow_id) os b (n, s, f, l) = (omega (arith, n), s, f, l)

module _ {W : Type 0} (execute : Action W AdapterResult)
    (record_answer : AdapterResult → Action W Text) where
  -- one call of the adapter, and the recording of its answer
  pub data Try : W → Outcome → W → Type 0 where
    lost : {w v : W} {e : Text} → execute w ≡ (failed e, v) → Try w (no_answer e) v
    dropped :
        {w u v : W} {answer : AdapterResult} {e : Text}
        → execute w ≡ (done answer, u)
        → record_answer answer u ≡ (failed e, v)
        → Try w (not_stored answer.status e) v
    kept :
        {w u v : W} {answer : AdapterResult} {flow_id : Text}
        → execute w ≡ (done answer, u)
        → record_answer answer u ≡ (done flow_id, v)
        → Try w (stored answer.status flow_id) v

  -- calls one after the other
  pub data Tries : W → List Outcome → W → Type 0 where
    over : {w : W} → Tries w [] w
    next :
        {w u v : W} {o : Outcome} {os : List Outcome}
        → Try w o u
        → Tries u os v
        → Tries w (o ∷ os) v

  -- one round is one call; it ends the loop only with an answer below 500
  attempt_once-Try :
      (a : Attempt) (w : W)
      → (o : Outcome) × (v : W) × Try w o v
        × (((attempt_once execute record_answer a w ≡ break_with (after a o) v)
              × ((after a o).response_status < 500))
            ⊎ (attempt_once execute record_answer a w ≡ continue_with (after a o) v))
  unfolding attempt_once
  attempt_once-Try a w = elim (Result-cases (execute w).0) [
    | inr (e, h) ↦ (no_answer e, (execute w).1, lost (ground (arith, h)), inr (ground (arith, h)))
    | inl (answer, h) ↦
        let answered : execute w ≡ (done answer, (execute w).1) = ground (arith, h) in
        elim (Result-cases (record_answer answer (execute w).1).0) [
          | inr (e, g) ↦ (
            not_stored answer.status e,
            (record_answer answer (execute w).1).1,
            dropped answered (ground (arith, g)),
            inr (ground (arith, h, g)),
          )
          | inl (flow_id, g) ↦ (
            stored answer.status flow_id,
            (record_answer answer (execute w).1).1,
            kept answered (ground (arith, g)),
            elim (Bool-cases (ltb answer.status 500)) [
              | inl t ↦ inl (ground (arith, h, g, t), ground (arith, t))
              | inr f ↦ inr (ground (arith, h, g, f))
            ],
          )
        ]
  ]

  -- The loop with `n` attempts left makes at most `n` calls, at least one if it may, and gives up early
  -- only with a last status below 500. Its variables tell what came of the calls.
  pub attempt_loop-Tries :
      (n : ℕ) (a b : Attempt) (w v : W)
      → attempt_loop execute record_answer n a w ≡ (b, v)
      → (os : List Outcome) × Tries w os v
        × Tells a os b
        × (length os ≤ n)
        × (1 ≤ n → 1 ≤ length os)
        × (1 ≤ length os → length os < n → b.response_status < 500)
  unfolding attempt_loop
  attempt_loop-Tries zero a b w v e =
      let same : a ≡ b = ground (arith, e) in
      let stays : w ≡ v = ground (arith, e) in
      (
        [],
        subst (λ u. Tries w [] u) stays over,
        subst (λ c. Tells a [] c) same (omega arith, refl, refl, refl),
        omega arith,
        (λ h. absurd (omega (arith, h))),
        (λ h g. absurd (omega (arith, h))),
      )
  attempt_loop-Tries (suc n) a b w v e =
      let (o, u, try, ended) = attempt_once-Try a w in
      elim ended [
        | inl (h, low) ↦
            let same : after a o ≡ b = ground (arith, h, e) in
            let stays : u ≡ v = ground (arith, h, e) in
            (
              o ∷ [],
              subst (λ x. Tries w (o ∷ []) x) stays (next try over),
              after-Tells a o [] b
                  (subst (λ c. Tells (after a o) [] c) same (omega arith, refl, refl, refl)),
              omega arith,
              (λ p. omega arith),
              (λ p q. subst (λ c. c.response_status < 500) same low),
            )
        | inr h ↦
            let rest : attempt_loop execute record_answer n (after a o) u ≡ (b, v) =
              ground (arith, h, e) in
            let (os, tries, tells, most, least, low) =
              attempt_loop-Tries n (after a o) b u v rest in
            (
              o ∷ os,
              next try tries,
              after-Tells a o os b tells,
              omega (arith, most),
              (λ p. omega arith),
              (λ p q. low (least (omega (arith, q))) (omega (arith, q))),
            )
      ]
