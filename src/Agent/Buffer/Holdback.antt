-- ===== src/Agent/Buffer/Holdback.antt =====
-- What the holdback buffer keeps: the newest messages, in order, each delivered once.
use hakuraku.Prelude.{
  ℕ, zero, suc, ◌+◌, ◌-◌, ◌≤◌, ◌<◌, ◌≡◌, refl, ◌∙◌, sym, ap, subst, List, [], ◌∷◌, ◌++◌, length,
  length-append, drop, length-drop, leb, leb→le, Bool-cases, inl, inr, arith,
}
use mathlib.Core.List.{append_assoc, append-nil}
use hakuraku.Agent.Buffer.{TelemetryBuffer, push, drain, len, pop_front}

module _ {ℓ} {A : Type ℓ} where
  drop-append : (n : ℕ) (xs ys : List A) → n ≤ length xs → drop n (xs ++ ys) ≡ drop n xs ++ ys
  drop-append zero xs ys h = refl
  drop-append (suc n) [] ys h = elim h [ ]
  drop-append (suc n) (x ∷ xs) ys h = drop-append n xs ys (omega arith)

  drop-nil : (n : ℕ) → drop {A = A} n [] ≡ []
  drop-nil zero = refl
  drop-nil (suc n) = refl

  pop_front-drop : (n : ℕ) (xs : List A) → pop_front (drop n xs) ≡ drop (suc n) xs
  pop_front-drop zero [] = refl
  pop_front-drop zero (x ∷ xs) = refl
  pop_front-drop (suc n) [] = refl
  pop_front-drop (suc n) (x ∷ xs) = pop_front-drop n xs

  -- The last `n` entries.
  abbrev pub newest : ℕ → List A → List A
  newest n xs = drop (length xs - n) xs

  push-newest :
      (b : TelemetryBuffer A) (pushed : List A) (msg : A)
      → 1 ≤ b.capacity
      → b.inner ≡ newest b.capacity pushed
      → (push b msg).inner ≡ newest b.capacity (pushed ++ msg ∷ [])
  unfolding push
  push-newest b pushed msg h e =
      let n = length pushed in
      let held : length b.inner ≡ n - (n - b.capacity) =
        ap length e ∙ length-drop (n - b.capacity) pushed in
      let longer : length (pushed ++ msg ∷ []) ≡ n + 1 = length-append pushed (msg ∷ []) in
      elim (Bool-cases (leb b.capacity (length b.inner))) [
        | inl full ↦
            let full' : b.capacity ≤ length b.inner = leb→le _ _ full in
            let k : length (pushed ++ msg ∷ []) - b.capacity ≡ suc (n - b.capacity) = omega arith in
            rw (full, k, e, pop_front-drop)
              (sym (drop-append (suc (n - b.capacity)) pushed (msg ∷ []) (omega arith)))
        | inr room ↦
            let room' : length b.inner < b.capacity = ground arith in
            let none_over : n - b.capacity ≡ 0 = omega arith in
            let k : length (pushed ++ msg ∷ []) - b.capacity ≡ 0 = omega arith in
            rw (room, k, e, none_over)
      ]

-- What happens to the buffer: the collector pushes, the forwarder drains.
pub data Op {ℓ} (A : Type ℓ) : Type ℓ where
  pushes : A → Op A
  drains : Op A

module _ {ℓ} {A : Type ℓ} where
  -- The messages that the forwarder takes, in order, and the buffer in the end.
  unfoldable pub run : TelemetryBuffer A → List (Op A) → List A × TelemetryBuffer A
  run b [] = ([], b)
  run b (pushes m ∷ os) = run (push b m) os
  run b (drains ∷ os) =
      let (taken, empty) = drain b in let (rest, last) = run empty os in (taken ++ rest, last)

  -- The specification: an unbounded queue of what came since the last drain, of which a drain
  -- delivers the newest `cap`.
  unfoldable pub ideal : ℕ → List A → List (Op A) → List A × List A
  ideal cap pending [] = ([], pending)
  ideal cap pending (pushes m ∷ os) = ideal cap (pending ++ m ∷ []) os
  ideal cap pending (drains ∷ os) =
      let (rest, last) = ideal cap [] os in (newest cap pending ++ rest, last)

  -- Every history of a buffer of capacity at least 1 delivers what the unbounded queue delivers:
  -- between two drains the newest `capacity` messages, in order; and the buffer holds the newest
  -- `capacity` of what is still pending.
  pub run-ideal :
      (b : TelemetryBuffer A) (pending : List A) (os : List (Op A))
      → 1 ≤ b.capacity
      → b.inner ≡ newest b.capacity pending
      → ((run b os).0 ≡ (ideal b.capacity pending os).0)
        × ((run b os).1.inner ≡ newest b.capacity (ideal b.capacity pending os).1)
  unfolding run ideal drain push
  run-ideal b pending [] h e = (refl, e)
  run-ideal b pending (pushes m ∷ os) h e =
      run-ideal (push b m) (pending ++ m ∷ []) os h (push-newest b pending m h e)
  run-ideal b pending (drains ∷ os) h e =
      let (rest, last) =
        run-ideal (record b { inner = [] }) [] os h (sym (drop-nil (0 - b.capacity))) in
      (rw (e, rest), last)

  -- A buffer of capacity at least 1 never holds more than its capacity, whatever is pushed and
  -- drained.
  pub len-run-le :
      (b : TelemetryBuffer A) (os : List (Op A))
      → 1 ≤ b.capacity
      → len b ≤ b.capacity
      → len (run b os).1 ≤ b.capacity
  unfolding run drain push len
  len-run-le b [] h k = k
  len-run-le b (pushes m ∷ os) h k =
      len-run-le (push b m) os h
        (ground (arith, length-append b.inner (m ∷ []), length-append (pop_front b.inner) (m ∷ [])))
  len-run-le b (drains ∷ os) h k = len-run-le (record b { inner = [] }) os h (omega arith)

  -- The messages that a history pushes.
  abbrev pub pushed : List (Op A) → List A
  pushed [] = []
  pushed (pushes m ∷ os) = m ∷ pushed os
  pushed (drains ∷ os) = pushed os

  -- No run of pushes between two drains is longer than the room that is left.
  abbrev pub Fits : ℕ → ℕ → List (Op A) → Type 0
  Fits cap held [] = Unit
  Fits cap held (pushes m ∷ os) = (held < cap) × Fits cap (suc held) os
  Fits cap held (drains ∷ os) = Fits cap 0 os

  push_room :
      (b : TelemetryBuffer A) (m : A)
      → length b.inner < b.capacity
      → push b m ≡ record b { inner = b.inner ++ m ∷ [] }
  unfolding push
  push_room b m h = ground arith

  -- As long as no more than `capacity` messages come between two drains, nothing is lost: what was
  -- taken, followed by what is still held, is what was held at first followed by all that was pushed.
  pub run_lossless :
      (b : TelemetryBuffer A) (os : List (Op A))
      → Fits b.capacity (len b) os
      → (run b os).0 ++ (run b os).1.inner ≡ b.inner ++ pushed os
  unfolding run drain len
  run_lossless b [] h = sym (append-nil b.inner)
  run_lossless b (pushes m ∷ os) h =
      let one_more : length (b.inner ++ m ∷ []) ≡ suc (length b.inner) =
        omega (arith, length-append b.inner (m ∷ [])) in
      subst (λ c. (run c os).0 ++ (run c os).1.inner ≡ b.inner ++ m ∷ pushed os)
        (sym (push_room b m h.0))
        (run_lossless (record b { inner = b.inner ++ m ∷ [] }) os
            (subst (λ n. Fits b.capacity n os) (sym one_more) h.1)
          ∙ append_assoc b.inner (m ∷ []) (pushed os))
  run_lossless b (drains ∷ os) h =
      let rest = run_lossless (record b { inner = [] }) os h in rw (append_assoc, rest)
