-- ===== src/Obs/Keeps.antt =====
-- Predicates on the UI thread's state that operations keep.
use obs_osc.Base.{Bool}
use obs_osc.Obs.Actions.{Action}
use obs_osc.Obs.Readings.{Ui, request}

abbrev pub Keeps : (Ui → Type 0) → (Ui → Ui) → Type 0
Keeps P f = (u : Ui) → P u → P (f u)

-- For a visitor, at whatever it is called on.
abbrev pub VisitKeeps {ℓ} : (Ui → Type 0) → {A : Type ℓ} → (A → Ui → Ui × Bool) → Type ℓ
VisitKeeps P visit = (x : _) (u : Ui) → P u → P (visit x u).0

abbrev pub RequestKeeps : (Ui → Type 0) → Type 0
RequestKeeps P = (action : Action) → Keeps P (request action)
