-- ===== src/Rpc/Local/Runs.antt =====
-- The theorems on the local client at concrete inputs.
use lodos.Base.{◌≡◌, refl, inl, true, false, List, [], ◌∷◌, arith}
use lodos.Io.Result.{ok}
use lodos.Io.Reader.{Bytes}
use lodos.Rpc.Info.{RpcInfo, ResultInfo, blank, no_code}
use lodos.Rpc.Local.{ClientCallInfo, LocalClient, calls, answers, ticks, ends, on_timeout, run}
use lodos.Rpc.Local.Calls.{run-IsSettled, on_timeout-expires}
use lodos.Rpc.Local.Inserts.{inserted, inserted-IsSettled, entry}
use lodos.Rpc.Local.Once.{unused, finished, IsSettled, timed_out}
use lodos.Utils.BeeMap.Pairs.{pairs, pairs-IsMap}

abbrev Table : Type 0
Table = List (Bytes × ClientCallInfo)

-- A client that nobody has called yet.
abbrev pub idle_client : LocalClient Table
idle_client = record {
  call_infos = [];
  chans = λ a. unused;
  next_chan = 0;
  is_close = false;
  server_is_close = false;
  written = [];
}

pub idle_client-IsSettled : IsSettled pairs idle_client
idle_client-IsSettled = record {
  waiting = λ k i h. refl;
  made = λ k i h. absurd (cc h);
  separate = λ j k i i' h h' e. absurd (cc h);
  fresh = λ a le. refl;
  once = λ a. inl refl;
}

abbrev ask : RpcInfo
ask = record {
  fn = b'f' ∷ [];
  reply = true;
  expired = 5000;
  cid = b'1' ∷ [];
  args_type = [];
  args = [];
}

abbrev an_answer : ResultInfo
an_answer = record {
  cid = b'1' ∷ [];
  err_code = no_code;
  error = blank;
  results_type = [];
  results = [];
}

-- A call, its result, the same result again, a tick after the time of the call, the end, a call and a tick behind it.
run-IsSettled_example :
    (c' : LocalClient Table) × (run pairs
        (calls ask
          ∷ answers an_answer
          ∷ answers an_answer
          ∷ ticks 6000
          ∷ ends
          ∷ calls ask
          ∷ ticks 7000
          ∷ [])
        idle_client
      ≡ ok c')
    × IsSettled pairs c'
run-IsSettled_example =
    run-IsSettled pairs pairs-IsMap
      (calls ask
        ∷ answers an_answer
        ∷ answers an_answer
        ∷ ticks 6000
        ∷ ends
        ∷ calls ask
        ∷ ticks 7000
        ∷ [])
      idle_client (tt, (tt, (tt, (tt, (tt, (tt, (tt, tt))))))) idle_client-IsSettled

abbrev asked : LocalClient Table
asked = inserted pairs pairs-IsMap ask idle_client

on_timeout-expires_example :
    (c' : LocalClient Table) × (on_timeout pairs 6000 asked ≡ ok c')
    × IsSettled pairs c'
    × (c'.chans 0
        ≡ finished (timed_out pairs pairs-IsMap (entry pairs pairs-IsMap ask idle_client) ∷ []))
on_timeout-expires_example =
    on_timeout-expires pairs pairs-IsMap 6000 ask.cid (entry pairs pairs-IsMap ask idle_client)
      asked (inserted-IsSettled pairs pairs-IsMap ask idle_client idle_client-IsSettled) refl
      (omega arith)
