-- ===== src/Gate/Handler/Shown.antt =====
-- The session that an operation of the gate gives is the one that its agent has.
use lodos.Base.{
  ℕ, ◌≡◌, refl, ap, ◌∙◌, Option, none, some, [], ◌==◌, ==_iff, if_true, if_both, is_empty,
}
use lodos.Gate.Session.{Session, Settings, set_userid, set_settings}
use lodos.Gate.Handler.{
  Gate, Storage, put_session, persist, recover, on_agent, on_session, restore, with_data, with_old,
  merged, is_set, bind, unbind, push, update,
}
use lodos.Io.Result.{Result, ok, err, panic, stuck}
use lodos.Io.Reader.{Bytes}
use lodos.Utils.BeeMap.{BeeMap}

module _ {M S : Type 0} where
  -- The session that an operation of the gate gives is the one that the agent has.
  abbrev pub Shows : ℕ → Result (Option Session) × Gate M S → Type 0
  Shows a (ok (some t), g) = (g.agents a).session ≡ some t
  Shows a (ok none, g) = Unit {0}
  Shows a (err e, g) = Unit {0}
  Shows a (panic, g) = Unit {0}
  Shows a (stuck, g) = Unit {0}

  put-Shows : (a : ℕ) (t : Session) (g : Gate M S) → ((put_session a t g).agents a).session ≡ some t
  put-Shows a t g = ap (λ x. x.session) (if_true (a == a) _ (g.agents a) ((==_iff a a).1 refl))

  persist-agents :
      (storage : Option (Storage S)) (t : Session) (g : Gate M S)
      → (persist storage t g).agents ≡ g.agents
  persist-agents none t g = refl
  persist-agents (some h) t g =
      if_both (λ (x : Gate M S). x.agents ≡ g.agents) (is_empty t.userid) _ _ refl refl

  persist-Shows :
      (storage : Option (Storage S)) (a : ℕ) (t : Session) (g : Gate M S)
      → Shows a (ok (some t), persist storage t (put_session a t g))
  persist-Shows storage a t g =
      ap (λ agents. (agents a).session) (persist-agents storage t (put_session a t g))
      ∙ put-Shows a t g

  recover-Shows : (a : ℕ) (r : Result (Option Session) × Gate M S) → Shows a r → Shows a (recover r)
  recover-Shows a (ok (some t), g) h = h
  recover-Shows a (ok none, g) h = tt
  recover-Shows a (err e, g) h = tt
  recover-Shows a (panic, g) h = tt
  recover-Shows a (stuck, g) h = tt

module _ {M S : Type 0} (bm : BeeMap M ℕ) (storage : Option (Storage S))
    (parse : Bytes → Result Session) where
  with_old-Shows :
      (r : Result Session) (a : ℕ) (t : Session) (g : Gate M S)
      → (g.agents a).session ≡ some t
      → Shows a (with_old bm storage parse r a t g)
  with_old-Shows (ok old) a t g h =
      let t' = set_settings (merged t.settings old.settings) t in
      if_both (λ (x : Gate M S). (x.agents a).session ≡ some t') (is_set t.settings) _ _
        (persist-Shows storage a t' g) (put-Shows a t' g)
  with_old-Shows (err e) a t g h = h
  with_old-Shows panic a t g h = tt
  with_old-Shows stuck a t g h = tt

  with_data-Shows :
      (r : Result (Option Bytes)) (a : ℕ) (t : Session) (g : Gate M S)
      → (g.agents a).session ≡ some t
      → Shows a (with_data bm storage parse r a t g)
  with_data-Shows (ok (some d)) a t g h = with_old-Shows (parse d) a t g h
  with_data-Shows (ok none) a t g h = h
  with_data-Shows (err e) a t g h = h
  with_data-Shows panic a t g h = tt
  with_data-Shows stuck a t g h = tt

  restore-Shows :
      (o : Option (Storage S)) (a : ℕ) (t : Session) (g : Gate M S)
      → (g.agents a).session ≡ some t
      → Shows a (restore bm storage parse o a t g)
  restore-Shows none a t g h = h
  restore-Shows (some st) a t g h =
      if_both (λ r. Shows a r) (is_empty t.userid) _ _ h
        (with_data-Shows (st.query t.userid g.stored) a t g h)

  on_session-Shows :
      (a : ℕ) (o : Option Session) (f : Session → Result (Option Session) × Gate M S) (g : Gate M S)
      → ((t : Session) → Shows a (f t))
      → Shows a (on_session o f g)
  on_session-Shows a none f g h = tt
  on_session-Shows a (some t) f g h = h t

  on_agent-Shows :
      (a : ℕ) (o : Option ℕ) (f : ℕ → Session → Result (Option Session) × Gate M S) (g : Gate M S)
      → o ≡ some a
      → ((t : Session) → Shows a (f a t))
      → Shows a (on_agent o f g)
  on_agent-Shows a o f g q h = rw q (on_session-Shows a (g.agents a).session (f a) g h)

  pub bind-Shows :
      (a : ℕ) (id userid : Bytes) (g : Gate M S)
      → bm.lookup id g.sessions ≡ some a
      → Shows a (bind bm storage parse id userid g)
  unfolding bind
  bind-Shows a id userid g q = recover-Shows a _ (
      on_agent-Shows a (bm.lookup id g.sessions) _ g q λ t.
        let t' = set_userid userid t in
        restore-Shows storage a t' (put_session a t' g) (put-Shows a t' g))

  pub unbind-Shows :
      (a : ℕ) (id : Bytes) (g : Gate M S)
      → bm.lookup id g.sessions ≡ some a
      → Shows a (unbind bm storage parse id g)
  unfolding unbind
  unbind-Shows a id g q =
      on_agent-Shows a (bm.lookup id g.sessions) _ g q λ t. put-Shows a (set_userid [] t) g

  pub push-Shows :
      (a : ℕ) (id : Bytes) (m : Option Settings) (g : Gate M S)
      → bm.lookup id g.sessions ≡ some a
      → Shows a (push bm storage parse id m g)
  unfolding push
  push-Shows a id m g q =
      on_agent-Shows a (bm.lookup id g.sessions) _ g q
        λ t. persist-Shows storage a (set_settings m t) g

  given-Shows :
      (a : ℕ) (o : Option Session) (g : Gate M S) → (g.agents a).session ≡ o → Shows a (ok o, g)
  given-Shows a none g h = tt
  given-Shows a (some t) g h = h

  pub update-Shows :
      (a : ℕ) (id : Bytes) (g : Gate M S)
      → bm.lookup id g.sessions ≡ some a
      → Shows a (update bm storage parse id g)
  unfolding update
  update-Shows a id g q = rw (Shows, update, q) (given-Shows a (g.agents a).session g refl)
