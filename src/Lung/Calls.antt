-- ===== src/Lung/Calls.antt =====
-- What the calls of the motor do to the state and the calls of the lung.
use oqlos.Base.{
  String, ◌≡◌, refl, ap, ◌∙◌, inl, inr, Option, none, some, List, [], ◌∷◌, ◌++◌, Bool-cases,
}
use oqlos.Models.{Fields}
use oqlos.Lung.{
  MotorCall, set_lung, stop_lung, health, Reply, returned, raised, Motor, Lung, answer, called,
  on_motor, after_call,
}

-- the calls that move the motor
abbrev pub moves : {F : Type 0} → List (MotorCall F) → List (MotorCall F)
moves [] = []
moves (set_lung steps speed cycles wait ∷ calls) = set_lung steps speed cycles wait ∷ moves calls
moves (_ ∷ calls) = moves calls

module _ {F : Type 0} where
  pub moves-stop_lung : (calls : List (MotorCall F)) → moves (calls ++ stop_lung ∷ []) ≡ moves calls
  moves-stop_lung [] = refl
  moves-stop_lung (set_lung steps speed cycles wait ∷ calls) =
      ap (λ cs. set_lung steps speed cycles wait ∷ cs) (moves-stop_lung calls)
  moves-stop_lung (stop_lung ∷ calls) = moves-stop_lung calls
  moves-stop_lung (health ∷ calls) = moves-stop_lung calls

  pub moves-health : (calls : List (MotorCall F)) → moves (calls ++ health ∷ []) ≡ moves calls
  moves-health [] = refl
  moves-health (set_lung steps speed cycles wait ∷ calls) =
      ap (λ cs. set_lung steps speed cycles wait ∷ cs) (moves-health calls)
  moves-health (stop_lung ∷ calls) = moves-health calls
  moves-health (health ∷ calls) = moves-health calls

  pub same-after_call :
      (r : Reply F) (command : String) (result : Fields F) (l : Lung F)
      → (after_call r (answer command result) l).1 ≡ l
  same-after_call (returned v) command result l = refl
  same-after_call (raised e) command result l = refl

  -- A stop leaves the state as its handler has set it.
  pub moves-on_motor :
      (motor : Option (Motor F)) (command : String) (result : Fields F) (l : Lung F)
      → moves (on_motor motor stop_lung (answer command result) l).1.calls ≡ moves l.calls
  moves-on_motor none command result l = refl
  moves-on_motor (some m) command result l = elim (Bool-cases m.is_real) [
    | inl e ↦ rw e (
        ap (λ (x : Lung F). moves x.calls)
          (same-after_call (m.reply l.calls stop_lung) command result (called stop_lung l))
        ∙ moves-stop_lung l.calls)
    | inr e ↦ rw e refl
  ]

  pub state-on_motor :
      (motor : Option (Motor F)) (command : String) (result : Fields F) (l : Lung F)
      → (on_motor motor stop_lung (answer command result) l).1.state ≡ l.state
  state-on_motor none command result l = refl
  state-on_motor (some m) command result l = elim (Bool-cases m.is_real) [
    | inl e ↦ rw e (
        ap (λ (x : Lung F). x.state)
          (same-after_call (m.reply l.calls stop_lung) command result (called stop_lung l)))
    | inr e ↦ rw e refl
  ]
