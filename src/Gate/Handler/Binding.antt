-- ===== src/Gate/Handler/Binding.antt =====
-- Bind, and the settings that it brings back from an earlier connection.
use lodos.Base.{ℕ, ◌≡◌, refl, ap, ◌∙◌, Bool, true, false, Option, some, ◌∷◌, if◌then◌else◌}
use lodos.Gate.Session.{Session, lookup, set_userid, set_settings}
use lodos.Gate.Handler.{
  Storage, Gate, put_session, persist, merged, is_set, bind, restore, with_data, with_old, recover,
  on_agent, on_session,
}
use lodos.Gate.Handler.Operations.{first_of, merged-lookup, persist-agents, put_session-same}
use lodos.Io.Result.{Result, ok}
use lodos.Io.Reader.{Bytes}
use lodos.Utils.BeeMap.{BeeMap}

module _ {M S : Type 0} (bm : BeeMap M ℕ) (h : Storage S)
    (new_session : Bytes → Result Session) where
  -- The session that Bind makes of the current one and an earlier one.
  abbrev pub bound : Bytes → Session → Session → Session
  bound userid s old = set_settings (merged s.settings old.settings) (set_userid userid s)

  bind-eq :
      (id user : Bytes) (c : ℕ) (g : Gate M S) (a : ℕ) (s old : Session) (data' : Bytes)
      → bm.lookup id g.sessions ≡ some a
      → (g.agents a).session ≡ some s
      → h.query (c ∷ user) g.stored ≡ ok (some data')
      → new_session data' ≡ ok old
      → let s1 = set_userid (c ∷ user) s in
        bind bm (some h) new_session id (c ∷ user) g
        ≡ recover (with_old bm (some h) new_session (ok old) a s1 (put_session a s1 g))
  unfolding bind
  bind-eq id user c g a s old data' ha hs hq hn =
      let s1 = set_userid (c ∷ user) s in
      let g1 = put_session a s1 g in
      let found : ℕ → Session → Result (Option Session) × Gate M S = λ b t.
        let t' = set_userid (c ∷ user) t in
        restore bm (some h) new_session (some h) b t' (put_session b t' g) in
      ap (λ o. recover (on_agent o found g)) ha
      ∙ ap (λ o. recover (on_session o (found a) g)) hs
      ∙ ap (λ q. recover (with_data bm (some h) new_session q a s1 g1)) hq
      ∙ ap (λ r. recover (with_old bm (some h) new_session r a s1 g1)) hn

  if-agents :
      (t : Bool) (st : Option (Storage S)) (s : Session) (g : Gate M S)
      → (if t then persist st s g else g).agents ≡ g.agents
  if-agents true st s g = persist-agents st s g
  if-agents false st s g = refl

  -- Bind of a user whose data an earlier connection has left: the session gets the user and the settings of
  -- both, of which its own come first, and it is returned and kept by the agent.
  pub bind-restored :
      (id user k : Bytes) (c : ℕ) (g : Gate M S) (a : ℕ) (s old : Session) (data' : Bytes)
      → bm.lookup id g.sessions ≡ some a
      → (g.agents a).session ≡ some s
      → h.query (c ∷ user) g.stored ≡ ok (some data')
      → new_session data' ≡ ok old
      → ((bind bm (some h) new_session id (c ∷ user) g).0 ≡ ok (some (bound (c ∷ user) s old)))
        × (((bind bm (some h) new_session id (c ∷ user) g).1.agents a).session
            ≡ some (bound (c ∷ user) s old))
        × (lookup k (bound (c ∷ user) s old).settings
            ≡ first_of (lookup k s.settings) (lookup k old.settings))
  bind-restored id user k c g a s old data' ha hs hq hn =
      let e = bind-eq id user c g a s old data' ha hs hq hn in
      let s1 = set_userid (c ∷ user) s in
      let g1 = put_session a s1 g in
      let s' = bound (c ∷ user) s old in
      (
        ap (λ r. r.0) e,
        ap (λ r. (r.1.agents a).session) e
            ∙ (ap (λ f. (f a).session)
                  (if-agents (is_set s.settings) (some h) s' (put_session a s' g1))
                ∙ put_session-same a s' g1),
        merged-lookup s.settings old.settings k,
      )
