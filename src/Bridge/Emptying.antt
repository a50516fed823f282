-- ===== src/Bridge/Emptying.antt =====
-- The batches of a round empty the queue of the inputs.
use rmp_ros2_control.Prelude.{
  ℕ, zero, suc, ◌-◌, ◌≤◌, ◌<◌, ◌≡◌, refl, ◌∙◌, ap, List, [], ◌∷◌, length, take, drop, length-drop,
  ltb→lt, ltb-false→le, ltb, arith, Holds, Holds-bind, Holds-any, Holds-mono, Bool-cases, inl, inr,
}
use rmp_ros2_control.Float.{Float}
use rmp_ros2_control.Dispatcher.{InputEvent, Environment}
use rmp_ros2_control.Dispatcher.Events.{Event, step, input}
use rmp_ros2_control.Bridge.{Bridge, hand, hand_inputs, drain_inputs}

drop-short : {A : Type 0} (n : ℕ) (xs : List A) → length xs ≤ n → drop n xs ≡ []
drop-short zero [] h = refl
drop-short zero (x ∷ xs) h = absurd (omega (arith, h))
drop-short (suc n) [] h = refl
drop-short (suc n) (x ∷ xs) h = drop-short n xs (omega (arith, h))

short-take : {A : Type 0} (n : ℕ) (xs : List A) → length (take n xs) < n → length xs ≤ n
short-take zero xs h = absurd (omega (arith, h))
short-take (suc n) [] h = omega arith
short-take (suc n) (x ∷ xs) h = omega (arith, short-take n xs (omega (arith, h)))

full-take : {A : Type 0} (n : ℕ) (xs : List A) → n ≤ length (take n xs) → n ≤ length xs
full-take zero xs h = omega arith
full-take (suc n) [] h = h
full-take (suc n) (x ∷ xs) h = omega (arith, full-take n xs (omega (arith, h)))

module _ {F D : Type 0} ⦃fl : Float F⦄ (env : Environment F D) where
  hand-events : (e : Event F) (b : Bridge F D) → Holds (λ b'. b'.events ≡ b.events) (hand env e b)
  unfolding hand
  hand-events e b = Holds-bind (λ _. Unit) _ (step env e b.dispatcher) _ (Holds-any _) (λ d _. refl)

  hand_inputs-events :
      (es : List (InputEvent F)) (b : Bridge F D)
      → Holds (λ b'. b'.events ≡ b.events) (hand_inputs env es b)
  unfolding hand_inputs
  hand_inputs-events [] b = refl
  hand_inputs-events (e ∷ es) b =
      Holds-bind (λ b'. b'.events ≡ b.events) _ (hand env (input e) b) _ (hand-events (input e) b)
        (λ b' h. Holds-mono _ _ (hand_inputs env es b') (hand_inputs-events es b') (λ c k. k ∙ h))

  -- With more fuel than inputs in the queue, the loop leaves none in it, unless the dispatcher raises.
  pub drain_inputs-Empties :
      (fuel : ℕ) (b : Bridge F D)
      → length b.events < fuel
      → Holds (λ b'. b'.events ≡ []) (drain_inputs fuel env b)
  unfolding drain_inputs
  drain_inputs-Empties zero b h = absurd (omega (arith, h))
  drain_inputs-Empties (suc fuel) b h =
      let batch = take 64 b.events in
      Holds-bind (λ b'. b'.events ≡ drop 64 b.events) _
        (hand_inputs env batch (record b { events = drop 64 b.events })) _
        (hand_inputs-events batch (record b { events = drop 64 b.events }))
        (λ b' e. elim (Bool-cases (ltb (length batch) 64)) [
          | inl t ↦
              rw t
                (e ∙ drop-short 64 b.events (short-take 64 b.events (ltb→lt (length batch) 64 t)))
          | inr t ↦
              let full : 64 ≤ length b.events =
                full-take 64 b.events (ltb-false→le (length batch) 64 t) in
              let left : length b'.events ≡ length b.events - 64 =
                ap length e ∙ length-drop 64 b.events in
              rw t (drain_inputs-Empties fuel b' (omega (arith, h, full, left)))
        ])
