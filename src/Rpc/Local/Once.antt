-- ===== src/Rpc/Local/Once.antt =====
-- A caller gets one result at most, and nothing is sent on a closed channel.
use lodos.Base.{
  ℕ, ◌≤◌, ◌<◌, ◌≡◌, refl, sym, ap, ◌∙◌, ◌⊎◌, inl, inr, Bool-cases, true, false, if_true, if_false,
  none, some, List, [], ◌∷◌, All, arith, ltb, ◌==◌, ==_iff, length, same,
}
use mathlib.Core.Path.{subst}
use lodos.Io.Result.{ok}
use lodos.Io.Reader.{Bytes}
use lodos.Rpc.Info.{ResultInfo, error_info, server_expired, timeout}
use lodos.Rpc.Local.{
  Chan, ClientCallInfo, LocalClient, put_chan, settle, expire_each, drop, drop_each, and_then,
}
use lodos.Utils.BeeMap.{BeeMap, IsMap, HasNot, Distinct}

abbrev pub unused : Chan
unused = record { sent = []; closed = false }

abbrev pub finished : List ResultInfo → Chan
finished rs = record { sent = rs; closed = true }

-- No result is on the channel and it is open, or it is closed behind one result at most.
abbrev pub OnceOnly : Chan → Type 0
OnceOnly ch = (ch ≡ unused) ⊎ ((ch.closed ≡ true) × (length ch.sent ≤ 1))

module _ {M : Type 0} (bm : BeeMap M ClientCallInfo) where
  abbrev pub Pending : Bytes → ClientCallInfo → LocalClient M → Type 0
  Pending k info c = bm.lookup k c.call_infos ≡ some info

  -- Each call that waits has an open channel of its own.
  pub record IsSettled (c : LocalClient M) : Type 0 where
    pub waiting : (k : Bytes) (i : ClientCallInfo) → Pending k i c → c.chans i.call_chan ≡ unused
    pub made : (k : Bytes) (i : ClientCallInfo) → Pending k i c → i.call_chan < c.next_chan
    pub separate :
        (j k : Bytes) (i i' : ClientCallInfo)
        → Pending j i c
        → Pending k i' c
        → i.call_chan ≡ i'.call_chan
        → same j k ≡ true
    pub fresh : (a : ℕ) → c.next_chan ≤ a → c.chans a ≡ unused
    pub once : (a : ℕ) → OnceOnly (c.chans a)

  -- The client with one entry taken out and its channel finished.
  abbrev pub without : Bytes → ℕ → List ResultInfo → LocalClient M → LocalClient M
  without key a rs c =
      put_chan bm a (finished rs) (record c { call_infos = bm.delete key c.call_infos })

  module _ (laws : IsMap bm) where
    still-Pending :
        (key j : Bytes) (i : ClientCallInfo) (a : ℕ) (rs : List ResultInfo) (c : LocalClient M)
        → Pending j i (without key a rs c)
        → (same j key ≡ false) × Pending j i c
    still-Pending key j i a rs c h = elim (Bool-cases (same j key)) [
      | inl e ↦
          absurd
            (cc (sym (laws.lookup-delete j key c.call_infos ∙ if_true (same j key) none _ e) ∙ h))
      | inr e ↦
          (e, sym (laws.lookup-delete j key c.call_infos ∙ if_false (same j key) none _ e) ∙ h)
    ]

    Pending-without :
        (key j : Bytes) (i : ClientCallInfo) (a : ℕ) (rs : List ResultInfo) (c : LocalClient M)
        → same j key ≡ false
        → Pending j i c
        → Pending j i (without key a rs c)
    Pending-without key j i a rs c e h =
        laws.lookup-delete j key c.call_infos ∙ (if_false (same j key) none _ e ∙ h)

    other-chan :
        (key : Bytes) (a b : ℕ) (rs : List ResultInfo) (c : LocalClient M)
        → (b == a) ≡ false
        → (without key a rs c).chans b ≡ c.chans b
    other-chan key a b rs c e = if_false (b == a) (finished rs) (c.chans b) e

    pub same-chan :
        (key : Bytes) (a : ℕ) (rs : List ResultInfo) (c : LocalClient M)
        → (without key a rs c).chans a ≡ finished rs
    same-chan key a rs c = if_true (a == a) (finished rs) (c.chans a) ((==_iff a a).1 refl)

    apart :
        (key j : Bytes) (info i : ClientCallInfo) (c : LocalClient M)
        → IsSettled c
        → Pending key info c
        → Pending j i c
        → same j key ≡ false
        → (i.call_chan == info.call_chan) ≡ false
    apart key j info i c v p q e = elim (Bool-cases (i.call_chan == info.call_chan)) [
      | inl t ↦
          absurd (cc (v.separate j key i info q p ((==_iff i.call_chan info.call_chan).0 t), e))
      | inr f ↦ f
    ]

    -- Taking a waiting call out keeps the others as they are.
    pub without-IsSettled :
        (key : Bytes) (info : ClientCallInfo) (rs : List ResultInfo) (c : LocalClient M)
        → IsSettled c
        → Pending key info c
        → length rs ≤ 1
        → IsSettled (without key info.call_chan rs c)
    without-IsSettled key info rs c v p short = record {
      waiting = λ j i h.
          let (e, q) = still-Pending key j i info.call_chan rs c h in
          other-chan key info.call_chan i.call_chan rs c (apart key j info i c v p q e)
          ∙ v.waiting j i q;
      made = λ j i h. v.made j i (still-Pending key j i info.call_chan rs c h).1;
      separate = λ j k i i' h h'.
          v.separate j k i i' (still-Pending key j i info.call_chan rs c h).1
            (still-Pending key k i' info.call_chan rs c h').1;
      fresh = λ a le.
          other-chan key info.call_chan a rs c (ground (arith, v.made key info p)) ∙ v.fresh a le;
      once = λ a. elim (Bool-cases (a == info.call_chan)) [
        | inl e ↦
            subst OnceOnly (sym (if_true (a == info.call_chan) (finished rs) (c.chans a) e))
              (inr (refl, short))
        | inr e ↦
            subst OnceOnly (sym (if_false (a == info.call_chan) (finished rs) (c.chans a) e))
              (v.once a)
      ];
    }

    -- A waiting call is settled with its result and no panic.
    pub settle-eq :
        (key : Bytes) (info : ClientCallInfo) (r : ResultInfo) (c : LocalClient M)
        → IsSettled c
        → Pending key info c
        → settle bm key info r c ≡ ok (without key info.call_chan (r ∷ []) c)
    unfolding settle
    settle-eq key info r c v p = rw (v.waiting key info p)

    pub drop-eq :
        (key : Bytes) (info : ClientCallInfo) (c : LocalClient M)
        → IsSettled c
        → Pending key info c
        → drop bm key info c ≡ ok (without key info.call_chan [] c)
    unfolding drop
    drop-eq key info c v p = rw (v.waiting key info p)

    abbrev pub AllPending : List (Bytes × ClientCallInfo) → LocalClient M → Type 0
    AllPending rest c = All (λ (p : Bytes × ClientCallInfo). Pending p.0 p.1 c) rest

    AllPending-without :
        (key : Bytes) (a : ℕ) (rs : List ResultInfo) (c : LocalClient M)
        (rest : List (Bytes × ClientCallInfo))
        → HasNot key rest
        → AllPending rest c
        → AllPending rest (without key a rs c)
    AllPending-without key a rs c [] n h = tt
    AllPending-without key a rs c ((j, i) ∷ rest) (e, n) (q, h) =
        (Pending-without key j i a rs c e q, AllPending-without key a rs c rest n h)

    abbrev pub Elsewhere : ℕ → List (Bytes × ClientCallInfo) → Type 0
    Elsewhere a rest = All (λ (p : Bytes × ClientCallInfo). (a == p.1.call_chan) ≡ false) rest

    all-Elsewhere :
        (key : Bytes) (info : ClientCallInfo) (c : LocalClient M)
        (rest : List (Bytes × ClientCallInfo))
        → IsSettled c
        → Pending key info c
        → HasNot key rest
        → AllPending rest c
        → Elsewhere info.call_chan rest
    all-Elsewhere key info c [] v p n h = tt
    all-Elsewhere key info c ((j, i) ∷ rest) v p (e, n) (q, h) =
        (ground (arith, apart key j info i c v p q e), all-Elsewhere key info c rest v p n h)

    abbrev pub timed_out : ClientCallInfo → ResultInfo
    timed_out info = error_info [] server_expired (timeout info.correlation_id)

    -- The entries of `rest` with their time past have their timeout, the channels of no entry are as they were.
    pub record Swept (now : ℕ) (rest : List (Bytes × ClientCallInfo)) (c c' : LocalClient M)
        : Type 0 where
      pub settled : IsSettled c'
      pub same_close : c'.is_close ≡ c.is_close
      pub frame : (a : ℕ) → Elsewhere a rest → c'.chans a ≡ c.chans a
      pub timed :
          All
            (λ (p : Bytes × ClientCallInfo).
              ltb p.1.timeout_at now ≡ true
              → c'.chans p.1.call_chan ≡ finished (timed_out p.1 ∷ []))
            rest

    pub sweep :
        (now : ℕ) (rest : List (Bytes × ClientCallInfo)) (c : LocalClient M)
        → IsSettled c
        → AllPending rest c
        → Distinct rest
        → (c' : LocalClient M) × (expire_each bm now rest c ≡ ok c') × Swept now rest c c'
    unfolding expire_each
    sweep now [] c v h d =
        (c, refl, record { settled = v; same_close = refl; frame = λ a e. refl; timed = tt })
    sweep now ((key, info) ∷ rest) c v (p, h) (n, d) = elim (Bool-cases (ltb info.timeout_at now)) [
      | inl e ↦
          let c1 = without key info.call_chan (timed_out info ∷ []) c in
          let (c', q, s) =
            sweep now rest c1 (without-IsSettled key info (timed_out info ∷ []) c v p (omega arith))
              (AllPending-without key info.call_chan (timed_out info ∷ []) c rest n h) d in
          (
            c',
            ap (λ r. and_then bm r (expire_each bm now rest))
                  (if_true (ltb info.timeout_at now) _ (ok c) e
                    ∙ settle-eq key info (timed_out info) c v p)
                ∙ q,
            record {
              settled = s.settled;
              same_close = s.same_close;
              frame = λ a w.
                  s.frame a w.1 ∙ other-chan key info.call_chan a (timed_out info ∷ []) c w.0;
              timed = (
                λ _.
                    s.frame info.call_chan (all-Elsewhere key info c rest v p n h)
                    ∙ same-chan key info.call_chan (timed_out info ∷ []) c,
                s.timed,
              );
            },
          )
      | inr e ↦
          let (c', q, s) = sweep now rest c v h d in
          (
            c',
            ap (λ r. and_then bm r (expire_each bm now rest))
                  (if_false (ltb info.timeout_at now) _ (ok c) e)
                ∙ q,
            record {
              settled = s.settled;
              same_close = s.same_close;
              frame = λ a w. s.frame a w.1;
              timed = (λ t. absurd (cc (t, e)), s.timed);
            },
          )
    ]

    pub sweep_all :
        (rest : List (Bytes × ClientCallInfo)) (c : LocalClient M)
        → IsSettled c
        → AllPending rest c
        → Distinct rest
        → (c' : LocalClient M) × (drop_each bm rest c ≡ ok c')
          × IsSettled c'
          × (c'.is_close ≡ c.is_close)
    unfolding drop_each
    sweep_all [] c v h d = (c, refl, v, refl)
    sweep_all ((key, info) ∷ rest) c v (p, h) (n, d) =
        let (c', q, s, b) =
          sweep_all rest (without key info.call_chan [] c)
            (without-IsSettled key info [] c v p (omega arith))
            (AllPending-without key info.call_chan [] c rest n h) d in
        (c', ap (λ r. and_then bm r (drop_each bm rest)) (drop-eq key info c v p) ∙ q, s, b)
