-- ===== src/Scripts/Publish/Once.antt =====
-- A result that is sent again until it is acknowledged, agent/internal/scripts/publish.go.
use everwas.Base.{ℕ, ◌+◌, ◌≤◌, ◌≡◌, Bool, true, false, List, [], ◌∷◌, if◌then◌else◌, ◌⊎◌}
use everwas.Base.Text.{Text, text_eq}
use everwas.Scripts.Publish.{Published}

-- How often a message id is in the stream.
abbrev pub copies : Text → List Text → ℕ
copies id [] = 0
copies id (k ∷ ks) = (if text_eq k id then 1 else 0) + copies id ks

module _ (id : Text) (server : ℕ → List Text → List Text × Bool)
    (dedups : (n : ℕ) (ids : List Text)
      → ((server n ids).0 ≡ ids) ⊎ ((copies id ids ≡ 0) × ((server n ids).0 ≡ id ∷ ids)))
    (acks_stored : (n : ℕ) (ids : List Text)
      → (server n ids).1 ≡ true
      → 1 ≤ copies id (server n ids).0) where
  abbrev IsSettled : ℕ → Published (List Text) → Type 0
  IsSettled left out =
      ((out.acknowledged ≡ true) × (copies id out.store ≡ 1))
      ⊎ ((out.acknowledged ≡ false) × (out.sends ≡ left))
