-- ===== src/Rpc/Local/Inserts.antt =====
-- A call joins the table of a local client.
use lodos.Base.{
  suc, ◌≡◌, sym, ap, ◌∙◌, ◌⊎◌, inl, inr, Bool-cases, true, false, if_true, if_false, Option, none,
  some, [], ◌∷◌, ◌++◌, arith, if◌then◌else◌, same, same_self, same-eq,
}
use mathlib.Core.Path.{subst}
use lodos.Io.Result.{Error}
use lodos.Io.Reader.{Bytes}
use lodos.Rpc.Info.{RpcInfo}
use lodos.Rpc.Local.{ClientCallInfo, LocalClient, call, call_on_new, call_nr}
use lodos.Rpc.Local.Once.{Pending, IsSettled}
use lodos.Utils.BeeMap.{BeeMap, IsMap}

module _ {M : Type 0} (bm : BeeMap M ClientCallInfo) (laws : IsMap bm) where
  abbrev pub entry : RpcInfo → LocalClient M → ClientCallInfo
  entry info c = record {
    correlation_id = info.cid;
    timeout_at = info.expired;
    call_chan = c.next_chan;
  }

  -- The table of an open client after a call.
  abbrev pub inserted : RpcInfo → LocalClient M → LocalClient M
  inserted info c = record c {
    call_infos = bm.insert info.cid (entry info c) c.call_infos;
    next_chan = suc c.next_chan;
    written = if c.server_is_close then c.written else c.written ++ (info ∷ []);
  }

  inserted-Pending :
      (info : RpcInfo) (c : LocalClient M) (j : Bytes) (i : ClientCallInfo)
      → Pending bm j i (inserted info c)
      → ((same j info.cid ≡ true) × (i ≡ entry info c)) ⊎ Pending bm j i c
  inserted-Pending info c j i h = elim (Bool-cases (same j info.cid)) [
    | inl e ↦ inl (
      e,
      cc (
          sym (
            laws.lookup-insert j info.cid (entry info c) c.call_infos
            ∙ if_true (same j info.cid) (some (entry info c)) _ e)
          ∙ h),
    )
    | inr e ↦ inr (
        sym (
          laws.lookup-insert j info.cid (entry info c) c.call_infos
          ∙ if_false (same j info.cid) (some (entry info c)) _ e)
        ∙ h)
  ]

  both-new : (j k id : Bytes) → same j id ≡ true → same k id ≡ true → same j k ≡ true
  both-new j k id p q = rw (same-eq j id p, same-eq k id q) (same_self id)

  inserted-separate :
      (info : RpcInfo) (c : LocalClient M) (j k : Bytes) (i i' : ClientCallInfo)
      → IsSettled bm c
      → ((same j info.cid ≡ true) × (i ≡ entry info c)) ⊎ Pending bm j i c
      → ((same k info.cid ≡ true) × (i' ≡ entry info c)) ⊎ Pending bm k i' c
      → i.call_chan ≡ i'.call_chan
      → same j k ≡ true
  inserted-separate info c j k i i' v (inl (p, x)) (inl (q, y)) e = both-new j k info.cid p q
  inserted-separate info c j k i i' v (inl (p, x)) (inr q) e =
      absurd (omega (arith, v.made k i' q, ap (λ (t : ClientCallInfo). t.call_chan) x, e))
  inserted-separate info c j k i i' v (inr p) (inl (q, y)) e =
      absurd (omega (arith, v.made j i p, ap (λ (t : ClientCallInfo). t.call_chan) y, e))
  inserted-separate info c j k i i' v (inr p) (inr q) e = v.separate j k i i' p q e

  pub inserted-IsSettled :
      (info : RpcInfo) (c : LocalClient M) → IsSettled bm c → IsSettled bm (inserted info c)
  inserted-IsSettled info c v = record {
    waiting = λ j i h. elim (inserted-Pending info c j i h) [
      | inl (e, q) ↦ ap (λ x. c.chans x.call_chan) q ∙ v.fresh c.next_chan (omega arith)
      | inr q ↦ v.waiting j i q
    ];
    made = λ j i h. elim (inserted-Pending info c j i h) [
      | inl (e, q) ↦ ground (arith, q)
      | inr q ↦ omega (arith, v.made j i q)
    ];
    separate = λ j k i i' h h' e.
        inserted-separate info c j k i i' v (inserted-Pending info c j i h)
          (inserted-Pending info c k i' h') e;
    fresh = λ a le. v.fresh a (omega arith);
    once = v.once;
  }

  refused-IsSettled :
      (c : LocalClient M) → IsSettled bm c → IsSettled bm (record c { next_chan = suc c.next_chan })
  refused-IsSettled c v = record {
    waiting = v.waiting;
    made = λ j i h. omega (arith, v.made j i h);
    separate = v.separate;
    fresh = λ a le. v.fresh a (omega arith);
    once = v.once;
  }

  pub call_on_new-open :
      (info : RpcInfo) (c : LocalClient M)
      → c.is_close ≡ false
      → call_on_new bm info c ≡ (none, inserted info c)
  unfolding call_on_new call
  call_on_new-open info c h = if_false c.is_close _ _ h

  pub calls-IsSettled :
      (info : RpcInfo) (c : LocalClient M) → IsSettled bm c → IsSettled bm (call_on_new bm info c).1
  unfolding call_on_new call
  calls-IsSettled info c v = elim (Bool-cases c.is_close) [
    | inl e ↦
        subst (λ (r : Option Error × LocalClient M). IsSettled bm r.1)
          (sym (if_true c.is_close _ _ e)) (refused-IsSettled c v)
    | inr e ↦
        subst (λ (r : Option Error × LocalClient M). IsSettled bm r.1)
          (sym (if_false c.is_close _ _ e)) (inserted-IsSettled info c v)
  ]

  pub calls_nr-IsSettled :
      (info : RpcInfo) (c : LocalClient M) → IsSettled bm c → IsSettled bm (call_nr bm info c).1
  unfolding call_nr
  calls_nr-IsSettled info c v = elim (Bool-cases c.is_close) [
    | inl e ↦
        subst (λ (r : Option Error × LocalClient M). IsSettled bm r.1)
          (sym (if_true c.is_close _ _ e)) v
    | inr e ↦
        subst (λ (r : Option Error × LocalClient M). IsSettled bm r.1)
          (sym (if_false c.is_close _ _ e))
          (record {
            waiting = v.waiting;
            made = v.made;
            separate = v.separate;
            fresh = v.fresh;
            once = v.once;
          })
  ]
