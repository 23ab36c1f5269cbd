-- ===== src/Recorder/Stop.antt =====
-- How the loop of `main` ends.
use kraken_data_recorder.Base.{
  Bool, true, false, not, ◌&&◌, List, [], ◌∷◌, ◌++◌, Error, Result, ok, err, ◌≡◌, ◌⊎◌, inl, inr,
  refl, ap, Bool-cases,
}
use kraken_data_recorder.Engine
use kraken_data_recorder.Engine.{Environment, World}
use kraken_data_recorder.Session
use kraken_data_recorder.Recorder.Loop.{
  Event, interrupted, Program, Ending, stopped, terminated, after_event, run_one, run,
}

module _ {R : Type 0} (env : Environment R) where
  -- The loop has been left, and processing is stopped, or an exception has left `main`.
  abbrev pub IsEnded : Program env × Ending → Type 0
  IsEnded (p, ending) =
      ((ending ≡ stopped) × (p.1.0.keep_processing ≡ false))
      ⊎ ((x : Error) × (ending ≡ terminated x))

  down-IsEnded :
      (later : List Event) (w : World env)
      → IsEnded (run env later (true, w)) × (run env later (true, w) ≡ run env [] (true, w))
  unfolding run Engine.stop_processing Session.stop_processing
  down-IsEnded [] w = (inl (refl, refl), refl)
  down-IsEnded (event ∷ later) w = (inl (refl, refl), refl)

  after_event-IsEnded :
      (event : Program env × Result (Unit {0})) (rest : Program env × Ending)
      → IsEnded rest
      → IsEnded (after_event env event rest)
  after_event-IsEnded (p, err x) rest h = inr (x, refl)
  after_event-IsEnded (p, ok _) rest h = h

  -- The signal ends the loop: whatever has happened before it, and whatever would happen after it,
  -- the loop is left and processing is stopped, or an exception has left `main`, and nothing that
  -- comes after the signal has any effect.
  pub run-IsEnded :
      (before later : List Event) (down : Bool) (w : World env)
      → IsEnded (run env (before ++ (interrupted ∷ later)) (down, w))
        × (run env (before ++ (interrupted ∷ later)) (down, w)
            ≡ run env (before ++ (interrupted ∷ [])) (down, w))
  unfolding run run_one Engine.stop_processing Session.stop_processing
  run-IsEnded [] later down w = elim (Bool-cases (not down && w.0.keep_processing)) [
    | inl on ↦ rw on (down-IsEnded later w)
    | inr off ↦ rw off (inl (refl, refl), refl)
  ]
  run-IsEnded (event ∷ before) later down w =
      let (p1, result) = run_one env event (down, w) in
      let rest = run-IsEnded before later p1.0 p1.1 in
      elim (Bool-cases (not down && w.0.keep_processing)) [
        | inl on ↦
            rw on
              (after_event-IsEnded (p1, result) _ rest.0, ap (after_event env (p1, result)) rest.1)
        | inr off ↦ rw off (inl (refl, refl), refl)
      ]
