-- ===== src/Rpc/Local/Calls.antt =====
-- What happens to a local client up to its end, and behind it: each call gets one result at most.
use lodos.Base.{
  Bool, if_both, ℕ, ◌<◌, ◌≡◌, refl, sym, ap, ◌∙◌, inl, inr, Bool-cases, true, false, if_true,
  if_false, Option, none, some, List, [], ◌∷◌, All, arith, lt→ltb, ltb, same, same_self,
}
use mathlib.Core.Path.{subst}
use lodos.Io.Result.{Error, Result, ok}
use lodos.Io.Reader.{Bytes}
use lodos.Rpc.Info.{RpcInfo, ResultInfo}
use lodos.Rpc.Local.{
  ClientCallInfo, LocalClient, call, call_on_new, call_nr, deliver, on_response, on_timeout, done,
  and_then, arrive, tick, Event, calls, calls_nr, answers, ticks, ends, stops, stop_consume, step,
  run,
}
use lodos.Rpc.Local.Once.{
  finished, Pending, IsSettled, without, without-IsSettled, settle-eq, same-chan, timed_out, sweep,
  sweep_all,
}
use lodos.Utils.BeeMap.{BeeMap, IsMap, Held}
use lodos.Rpc.Local.Inserts.{calls-IsSettled, calls_nr-IsSettled}

module _ {M : Type 0} (bm : BeeMap M ClientCallInfo) (laws : IsMap bm) where
  -- Whether Done has been called behind an event, and which events come in order: behind Done no result, and no
  -- other Done.
  abbrev pub ended_by : Event → Bool → Bool
  ended_by ends b = true
  ended_by e b = b

  abbrev pub Allowed : Bool → Event → Type 0
  Allowed true (answers r) = ⊥
  Allowed true ends = ⊥
  Allowed b e = Unit {0}

  abbrev pub Orderly : Bool → List Event → Type 0
  Orderly b [] = Unit {0}
  Orderly b (e ∷ es) = Allowed b e × Orderly (ended_by e b) es

  -- A result that is settled, with is_close as it says.
  abbrev pub Comes : Bool → Result (LocalClient M) → Type 0
  Comes b r = (c' : LocalClient M) × (r ≡ ok c') × IsSettled bm c' × (c'.is_close ≡ b)

  deliver-IsSettled :
      (o : Option ClientCallInfo) (r : ResultInfo) (c : LocalClient M)
      → bm.lookup r.cid c.call_infos ≡ o
      → IsSettled bm c
      → Comes c.is_close (deliver bm o r c)
  deliver-IsSettled none r c p v = (c, refl, v, refl)
  deliver-IsSettled (some info) r c p v = (
    without bm r.cid info.call_chan (r ∷ []) c,
    settle-eq bm laws r.cid info r c v p,
    without-IsSettled bm laws r.cid info (r ∷ []) c v p (omega arith),
    refl,
  )

  done-IsSettled :
      (c : LocalClient M) → c.is_close ≡ false → IsSettled bm c → Comes true (done bm c)
  unfolding done
  done-IsSettled c h v = subst (Comes true) (sym (if_false c.is_close _ _ h)) (
      sweep_all bm laws (bm.items c.call_infos) (record c { is_close = true })
        (record {
          waiting = v.waiting;
          made = v.made;
          separate = v.separate;
          fresh = v.fresh;
          once = v.once;
        })
        (laws.items_sound c.call_infos) (laws.items_distinct c.call_infos))

  arrive-IsSettled :
      (r : ResultInfo) (c : LocalClient M)
      → c.is_close ≡ false
      → IsSettled bm c
      → Comes c.is_close (arrive bm r c)
  unfolding arrive on_response
  arrive-IsSettled r c h v =
      subst (Comes c.is_close) (sym (if_false c.is_close _ _ h))
        (deliver-IsSettled (bm.lookup r.cid c.call_infos) r c refl v)

  tick-IsSettled : (now : ℕ) (c : LocalClient M) → IsSettled bm c → Comes c.is_close (tick bm now c)
  unfolding tick on_timeout
  tick-IsSettled now c v = elim (Bool-cases c.is_close) [
    | inl e ↦ (c, if_true c.is_close _ _ e, v, refl)
    | inr e ↦
        let (c', p, s) =
          sweep bm laws now (bm.items c.call_infos) c v (laws.items_sound c.call_infos)
            (laws.items_distinct c.call_infos) in
        (c', if_false c.is_close _ _ e ∙ p, s.settled, s.same_close)
  ]

  calls-keeps :
      (info : RpcInfo) (c : LocalClient M) → (call_on_new bm info c).1.is_close ≡ c.is_close
  unfolding call_on_new call
  calls-keeps info c =
      if_both (λ (r : Option Error × LocalClient M). r.1.is_close ≡ c.is_close) c.is_close _ _ refl
        refl

  calls_nr-keeps :
      (info : RpcInfo) (c : LocalClient M) → (call_nr bm info c).1.is_close ≡ c.is_close
  unfolding call_nr
  calls_nr-keeps info c =
      if_both (λ (r : Option Error × LocalClient M). r.1.is_close ≡ c.is_close) c.is_close _ _ refl
        refl

  -- What comes in order on an open client is allowed on it.
  open-of : (b : Bool) (e : Event) → Allowed b e → (Allowed true e → ⊥) → b ≡ false
  open-of true e h n = absurd (n h)
  open-of false e h n = refl

  step-IsSettled :
      (e : Event) (c : LocalClient M)
      → Allowed c.is_close e
      → IsSettled bm c
      → Comes (ended_by e c.is_close) (step bm e c)
  unfolding step stop_consume
  step-IsSettled (calls info) c h v =
      (_, refl, calls-IsSettled bm laws info c v, calls-keeps info c)
  step-IsSettled (calls_nr info) c h v =
      (_, refl, calls_nr-IsSettled bm laws info c v, calls_nr-keeps info c)
  step-IsSettled (answers r) c h v =
      arrive-IsSettled r c (open-of c.is_close (answers r) h (λ x. x)) v
  step-IsSettled (ticks now) c h v = tick-IsSettled now c v
  step-IsSettled ends c h v = done-IsSettled c (open-of c.is_close ends h (λ x. x)) v
  step-IsSettled stops c h v = (
    _,
    refl,
    record {
      waiting = v.waiting;
      made = v.made;
      separate = v.separate;
      fresh = v.fresh;
      once = v.once;
    },
    refl,
  )

  -- Whatever calls, results, seconds and ends follow one another, as long as behind an end come no result and no other
  -- end, the client does not panic and does not hang, and it is settled again: each call that waits has an open
  -- channel of its own, and on every channel there is no result and it is open, or it is closed behind one result
  -- at most.
  pub run-IsSettled :
      (es : List Event) (c : LocalClient M)
      → Orderly c.is_close es
      → IsSettled bm c
      → (c' : LocalClient M) × (run bm es c ≡ ok c') × IsSettled bm c'
  unfolding run
  run-IsSettled [] c o v = (c, refl, v)
  run-IsSettled (e ∷ es) c (a, o) v =
      let (c1, p, v1, b) = step-IsSettled e c a v in
      let (c2, q, v2) = run-IsSettled es c1 (subst (λ x. Orderly x es) (sym b) o) v1 in
      (c2, ap (λ r. and_then bm r (run bm es)) p ∙ q, v2)

  -- A result reaches the caller that waits for its id, alone and behind it the channel is closed, and the id
  -- waits no more; a result for no caller changes nothing.
  pub on_response-delivers :
      (r : ResultInfo) (info : ClientCallInfo) (c : LocalClient M)
      → IsSettled bm c
      → Pending bm r.cid info c
      → (c' : LocalClient M) × (on_response bm r c ≡ ok c')
        × (c'.chans info.call_chan ≡ finished (r ∷ []))
        × (bm.lookup r.cid c'.call_infos ≡ none)
        × (on_response bm r c' ≡ ok c')
  unfolding on_response
  on_response-delivers r info c v p =
      let c' = without bm r.cid info.call_chan (r ∷ []) c in
      let gone =
        laws.lookup-delete r.cid r.cid c.call_infos
        ∙ if_true (same r.cid r.cid) none _ (same_self r.cid) in
      (
        c',
        ap (λ o. deliver bm o r c) p ∙ settle-eq bm laws r.cid info r c v p,
        same-chan bm laws r.cid info.call_chan (r ∷ []) c,
        gone,
        ap (λ o. deliver bm o r c') gone,
      )

  timed-Held :
      (now : ℕ) (key : Bytes) (info : ClientCallInfo) (rest : List (Bytes × ClientCallInfo))
      (c' : LocalClient M)
      → Held key info rest
      → All
          (λ (p : Bytes × ClientCallInfo).
            ltb p.1.timeout_at now ≡ true
            → c'.chans p.1.call_chan ≡ finished (timed_out bm laws p.1 ∷ []))
          rest
      → ltb info.timeout_at now ≡ true
      → c'.chans info.call_chan ≡ finished (timed_out bm laws info ∷ [])
  timed-Held now key info [] c' m ts h = elim m [ ]
  timed-Held now key info ((j, w) ∷ rest) c' (inl (e, q)) (t, ts) h =
      subst
        (λ (x : ClientCallInfo).
          ltb x.timeout_at now ≡ true → c'.chans x.call_chan ≡ finished (timed_out bm laws x ∷ []))
        q t h
  timed-Held now key info ((j, w) ∷ rest) c' (inr m) (t, ts) h =
      timed-Held now key info rest c' m ts h

  -- A call whose time is past at a tick of the clock gets the timeout error as its one result.
  pub on_timeout-expires :
      (now : ℕ) (key : Bytes) (info : ClientCallInfo) (c : LocalClient M)
      → IsSettled bm c
      → Pending bm key info c
      → info.timeout_at < now
      → (c' : LocalClient M) × (on_timeout bm now c ≡ ok c')
        × IsSettled bm c'
        × (c'.chans info.call_chan ≡ finished (timed_out bm laws info ∷ []))
  unfolding on_timeout
  on_timeout-expires now key info c v p h =
      let items = bm.items c.call_infos in
      let (c', q, s) =
        sweep bm laws now items c v (laws.items_sound c.call_infos)
          (laws.items_distinct c.call_infos) in
      (
        c',
        q,
        s.settled,
        timed-Held now key info items c' (laws.items_complete key info c.call_infos p) s.timed
            (lt→ltb _ _ h),
      )
