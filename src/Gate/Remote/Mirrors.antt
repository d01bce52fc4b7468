-- ===== src/Gate/Remote/Mirrors.antt =====
-- What a call of a session does is what the gate does, and the session becomes a copy of the gate's.
use lodos.Base.{ℕ, ◌≡◌, Option, none, some}
use lodos.Gate.Session.{Session}
use lodos.Gate.Handler
use lodos.Gate.Handler.{Gate, Storage}
use lodos.Gate.Remote.{RemoteError, failed, timed_out, Services}
use lodos.Gate.Remote.Served.{gate_services}
use lodos.Gate.Remote.Wire.{Wire, Fate, in_time, answer_late, request_late, carried}
use lodos.Io.Result.{Result, ok, err, panic, stuck}
use lodos.Io.Reader.{Bytes}
use lodos.Utils.BeeMap.{BeeMap}

module _ {M S : Type 0} (wire : Wire) where
  -- What a call of a session comes to beside what the gate's operation `h` comes to on the gate before, g0. In time, the
  -- gate is left as that leaves it; where it gives a session, there is no error, the caller's session has the
  -- fields of what arrives of it, and the agent has that session; where it fails, the call fails and the caller's
  -- session stays. With a late answer the gate is left the same, but the call fails; with a late request it fails
  -- and the gate is as before.
  abbrev pub Mirrors :
      Fate
      → ℕ
      → Session
      → Gate M S
      → Option RemoteError × (Session × Gate M S)
      → Result (Option Session) × Gate M S
      → Type 0
  Mirrors in_time a s g0 r (ok (some t), g) =
      (r ≡ (none, (record (wire.session t) { has_app = s.has_app }, g)))
      × ((g.agents a).session ≡ some t)
  Mirrors in_time a s g0 r (ok none, g) = r.1.1 ≡ g
  Mirrors in_time a s g0 r (err e, g) = r ≡ (some failed, (s, g))
  Mirrors in_time a s g0 r (panic, g) = r ≡ (some timed_out, (s, g))
  Mirrors in_time a s g0 r (stuck, g) = r ≡ (some timed_out, (s, g))
  Mirrors answer_late a s g0 r (x, g) = r ≡ (some timed_out, (s, g))
  Mirrors request_late a s g0 r h = r ≡ (some timed_out, (s, g0))

module _ {M S : Type 0} (bm : BeeMap M ℕ) (storage : Option (Storage S))
    (parse : Bytes → Result Session) (gate_id : Bytes) (wire : Wire) (fate : Fate) where
  abbrev pub remote_gate : Services (Gate M S)
  remote_gate = carried fate wire (gate_services bm storage parse gate_id)
