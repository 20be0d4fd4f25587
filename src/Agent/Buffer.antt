-- ===== src/Agent/Buffer.antt =====
-- pulse-agent/src/buffer.rs: the bounded holdback buffer. The `VecDeque` is a list, front first.
pub mod Holdback
pub mod Kept
mod Tests
use hakuraku.Prelude.{ℕ, Bool, List, [], ◌∷◌, ◌++◌, length, leb, if◌then◌else◌}

pub record TelemetryBuffer {ℓ} (A : Type ℓ) : Type ℓ where
  pub inner : List A
  pub capacity : ℕ

module _ {ℓ} {A : Type ℓ} where
  unfoldable pub new : ℕ → TelemetryBuffer A
  new capacity = record { inner = []; capacity = capacity }

  abbrev pop_front : List A → List A
  pop_front [] = []
  pop_front (x ∷ xs) = xs

  unfoldable pub push : TelemetryBuffer A → A → TelemetryBuffer A
  push b msg = record b {
    inner = (if leb b.capacity (length b.inner) then pop_front b.inner else b.inner) ++ msg ∷ [];
  }

  -- The messages, and the buffer without them.
  unfoldable pub drain : TelemetryBuffer A → List A × TelemetryBuffer A
  drain b = (b.inner, record b { inner = [] })

  unfoldable pub len : TelemetryBuffer A → ℕ
  len b = length b.inner
