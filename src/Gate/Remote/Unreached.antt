-- ===== src/Gate/Remote/Unreached.antt =====
-- The call of a session that reaches no function of the gate.
use lodos.Base.{ℕ, ◌≡◌, ◌∙◌, true, Option, some, if_true, same}
use lodos.Gate.Session.{Session}
use lodos.Gate.Handler.{Gate, Storage}
use lodos.Gate.Remote.{not_adapted, close}
use lodos.Gate.Remote.Served.{gate_services}
use lodos.Io.Result.{Result}
use lodos.Io.Reader.{Bytes}
use lodos.Utils.BeeMap.{BeeMap}

-- Close of a session that knows its application and the gate of its client always comes back with an error, and the
-- connection stays open: it gives the gate's Close two arguments in place of one.
pub close-not_adapted :
    {M S : Type 0} (bm : BeeMap M ℕ) (storage : Option (Storage S)) (parse : Bytes → Result Session)
    (gate_id : Bytes) (s : Session) (g : Gate M S)
    → s.has_app ≡ true
    → same s.serverid gate_id ≡ true
    → close (gate_services bm storage parse gate_id) s g ≡ (some not_adapted, g)
unfolding close
close-not_adapted bm storage parse gate_id s g e f =
    if_true s.has_app _ _ e ∙ if_true (same s.serverid gate_id) _ _ f
