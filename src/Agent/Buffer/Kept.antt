-- ===== src/Agent/Buffer/Kept.antt =====
-- What a push leaves of what the buffer held.
use hakuraku.Prelude.{
  ◌+◌, ◌≤◌, ◌<◌, ◌≡◌, refl, inl, inr, Bool-cases, List, [], ◌∷◌, ◌++◌, length, length-append, leb,
  leb→le, arith,
}
use mathlib.Core.List.{Sublist}
use mathlib.Core.List.Sublist
use hakuraku.Agent.Buffer.{TelemetryBuffer, push, pop_front}

module _ {A : Type 0} where
  pop_front-sublist : (xs : List A) → Sublist (pop_front xs) xs
  pop_front-sublist [] = Sublist.refl []
  pop_front-sublist (x ∷ xs) = Sublist.cons x (Sublist.refl xs)

  pub push-sublist :
      (b : TelemetryBuffer A) (msg : A) → Sublist (push b msg).inner (b.inner ++ msg ∷ [])
  unfolding push
  push-sublist b msg = elim (Bool-cases (leb b.capacity (length b.inner))) [
    | inl full ↦ rw full (Sublist.append (pop_front-sublist b.inner) (Sublist.refl (msg ∷ [])))
    | inr room ↦ rw room (Sublist.refl (b.inner ++ msg ∷ []))
  ]

  pub push_nil : (b : TelemetryBuffer A) (msg : A) → b.inner ≡ [] → (push b msg).inner ≡ msg ∷ []
  unfolding push
  push_nil b msg e = ground (arith, e)

  pub push_room :
      (b : TelemetryBuffer A) (msg : A)
      → length b.inner < b.capacity
      → (push b msg).inner ≡ b.inner ++ msg ∷ []
  unfolding push
  push_room b msg h = ground (arith, leb→le b.capacity (length b.inner))

  pub capacity-push : (b : TelemetryBuffer A) (msg : A) → (push b msg).capacity ≡ b.capacity
  unfolding push
  capacity-push b msg = refl

  length-pop_front-le : (xs : List A) → length (pop_front xs) ≤ length xs
  length-pop_front-le [] = omega arith
  length-pop_front-le (x ∷ xs) = omega arith

  pub length-push-le :
      (b : TelemetryBuffer A) (msg : A) → length (push b msg).inner ≤ length b.inner + 1
  unfolding push
  length-push-le b msg = ground (
    arith,
    length-append (pop_front b.inner) (msg ∷ []),
    length-append b.inner (msg ∷ []),
    length-pop_front-le b.inner,
  )
