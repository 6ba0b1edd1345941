-- ===== src/Adapters/Governed.antt =====
-- A synthetic adapter under the coordinator: `SyntheticAdapter.execute` of
-- app/services/company_os_synthetic_adapters.py as what
-- app/services/company_os_sandbox_coordinator.py calls.
use polsia_build.Common.{String, arith, first, none, some, ◌≡◌}
use polsia_build.Adapters.Execute.{SyntheticAdapter, execute}
use polsia_build.Adapters.Replay.{execute-again}
use polsia_build.Adapters.Steps.{Steps}
use polsia_build.Adapters.World.{Libraries, SyntheticWorld}
use polsia_build.Coordinator.Action.{cleared, perform, performed, take_receipt}
use polsia_build.Coordinator.Inputs.{Runtime}
use polsia_build.Coordinator.Native.{CapabilityRequest, Native, Provided, failed, returned}
use polsia_build.Coordinator.Ruling.{Ruling}
use polsia_build.Raises.{ErrorKind, Message, Result, err, ok}
use polsia_build.Value.{Fields, obj, str}

-- The adapter as the coordinator calls it; what it raises has a class name and a text.
abbrev pub provided :
    (ErrorKind → String)
    → (Message → String)
    → Result String × SyntheticWorld
    → Provided × SyntheticWorld
provided class_name render (ok receipt, w) = (returned (str receipt), w)
provided class_name render (err e, w) = (failed (class_name e.kind) (render e.message) none, w)

abbrev pub bound_adapter :
    Libraries
    → (ErrorKind → String)
    → (Message → String)
    → SyntheticAdapter
    → Fields
    → String
    → SyntheticWorld
    → Provided × SyntheticWorld
bound_adapter lib class_name render a d key w =
    provided class_name render (execute lib a (obj d) key w)

-- An action that was carried out, but whose event was not stored, is carried out again under the same
-- key: the adapter gives the same receipt, so that the outcome is the same, and nothing else happens.
pub perform-again :
    (lib : Libraries) (class_name : ErrorKind → String) (render : Message → String)
    (rt : Runtime SyntheticWorld) (a : SyntheticAdapter) (d : Fields) (key r : String) (n : Native)
    (u : Ruling) (q : CapabilityRequest) (w w' w'' : SyntheticWorld)
    → performed n.integration ≡ some q
    → rt.synthetic_adapters q.name ≡ some (bound_adapter lib class_name render a)
    → execute lib a (obj d) key w ≡ (ok r, w')
    → Steps lib w' w''
    → (perform rt d key (cleared n u) w ≡ (take_receipt n u (returned (str r)), w'))
      × (perform rt d key (cleared n u) w'' ≡ (take_receipt n u (returned (str r)), w''))
unfolding perform
perform-again lib class_name render rt a d key r n u q w w' w'' asked bound first steps =
    (called w w' first, called w'' w'' (execute-again lib a (obj d) key r w w' w'' first steps))
  where
    called :
        (x y : SyntheticWorld)
        → execute lib a (obj d) key x ≡ (ok r, y)
        → perform rt d key (cleared n u) x ≡ (take_receipt n u (returned (str r)), y)
    called x y h = ground (arith, asked, bound, h)
