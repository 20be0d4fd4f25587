-- ===== src/Agent/Buffer/Tests.antt =====
-- The holdback buffer at concrete histories.
use hakuraku.Prelude.{ℕ, ◌≡◌, refl, List, [], ◌∷◌, arith}
use hakuraku.Agent.Buffer.{TelemetryBuffer, new, push, drain, len}
use hakuraku.Agent.Buffer.Holdback.{Op, pushes, drains, run, ideal, newest, run-ideal}

abbrev three : TelemetryBuffer ℕ
three = record { inner = []; capacity = 3 }

abbrev dropout : List (Op ℕ)
dropout = pushes 1 ∷ pushes 2 ∷ pushes 3 ∷ pushes 4 ∷ drains ∷ pushes 5 ∷ []

evicts_oldest : run three dropout ≡ (2 ∷ 3 ∷ 4 ∷ [], record { inner = 5 ∷ []; capacity = 3 })
unfolding run push drain
evicts_oldest = refl

run-ideal_example :
    ((run three dropout).0 ≡ (ideal 3 [] dropout).0)
    × ((run three dropout).1.inner ≡ newest 3 (ideal 3 [] dropout).1)
run-ideal_example = run-ideal three [] dropout (omega arith) refl

-- A capacity of 0 still holds one message.
holds_one : len (push (new {A = ℕ} 0) 7) ≡ 1
unfolding len push new
holds_one = refl
