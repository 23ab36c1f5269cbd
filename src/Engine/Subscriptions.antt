-- ===== src/Engine/Subscriptions.antt =====
-- Which symbols a snapshot of the instruments subscribes to.
use kraken_data_recorder.Base.{Bool, true, List, [], ◌∷◌, String}
use kraken_data_recorder.Engine.{find}

-- Without a filter, all symbols pass.
abbrev pub passes : String → List String → Bool
passes symbol [] = true
passes symbol (name ∷ names) = find symbol (name ∷ names)
