-- ===== src/Gate/Handler/Operations.antt =====
-- What the operations of the gate do to the sessions.
use lodos.Base.{
  ℕ, ◌≡◌, refl, ap, ◌∙◌, inl, inr, Bool-cases, if_true, if_false, true, false, Option, none, some,
  ◌==◌, ==_iff, if◌then◌else◌, same, is_empty,
}
use lodos.Gate.Session
use lodos.Gate.Session.{Session, Settings, lookup, made, set_key, set_userid, set_settings}
use lodos.Gate.Handler.{
  Storage, Gate, put_session, persist, merged, over, bind, unbind, set, remove, push, update, send,
  close, change, connect, id_of,
}
use lodos.Io.Result.{Result, ok, err, no_session}
use lodos.Io.Reader.{Bytes}
use lodos.Utils.BeeMap.{BeeMap}

module _ {M S : Type 0} (bm : BeeMap M ℕ) (storage : Option (Storage S))
    (new_session : Bytes → Result Session) where
  -- With an id that the gate does not know every operation on one session returns the error, and the
  -- gate is left as it is.
  pub operations-unknown_session :
      (id userid key value topic body : Bytes) (settings : Option Settings) (g : Gate M S)
      → bm.lookup id g.sessions ≡ none
      → (bind bm storage new_session id userid g ≡ (err no_session, g))
        × (unbind bm storage new_session id g ≡ (err no_session, g))
        × (set bm storage new_session id key value g ≡ (err no_session, g))
        × (remove bm storage new_session id key g ≡ (err no_session, g))
        × (push bm storage new_session id settings g ≡ (err no_session, g))
        × (update bm storage new_session id g ≡ (err no_session, g))
        × (send bm storage new_session id topic body g ≡ (err no_session, g))
        × (close bm storage new_session id g ≡ (err no_session, g))
  unfolding bind unbind set remove push update send close
  operations-unknown_session id userid key value topic body settings g h =
      (rw h, rw h, rw h, rw h, rw h, rw (update, h), rw (send, h), rw (close, h))

abbrev pub first_of : Option Bytes → Option Bytes → Option Bytes
first_of none old = old
first_of (some v) old = some v

over-lookup :
    (current old : Settings) (k : Bytes) → over current old k ≡ first_of (current k) (old k)
over-lookup current old k =
    elim (current k) as (λ o. elim o [ none ↦ old k | some v ↦ some v ] ≡ first_of o (old k)) [
      | none ↦ refl
      | some v ↦ refl
    ]

pub merged-lookup :
    (current old : Option Settings) (k : Bytes)
    → lookup k (merged current old) ≡ first_of (lookup k current) (lookup k old)
merged-lookup none old k = refl
merged-lookup (some current) none k = elim (current k) as (λ o. o ≡ first_of o none) [
  | none ↦ refl
  | some v ↦ refl
]
merged-lookup (some current) (some old) k = over-lookup current old k

made-lookup :
    (st : Option Settings) (key : Bytes) (value : Option Bytes) (k : Bytes)
    → lookup k (some (set_key key value (made st))) ≡ (if same k key then value else lookup k st)
made-lookup none key value k = refl
made-lookup (some settings) key value k = refl

set-lookup :
    (s : Session) (key value k : Bytes)
    → s.has_app ≡ true
    → lookup k (Session.set key value s).settings
      ≡ (if same k key then some value else lookup k s.settings)
set-lookup s key value k h =
    ap (λ t. lookup k t.settings) (if_true s.has_app _ s h)
    ∙ made-lookup s.settings key (some value) k

remove-lookup :
    (s : Session) (key k : Bytes)
    → s.has_app ≡ true
    → lookup k (Session.remove key s).settings ≡ (if same k key then none else lookup k s.settings)
remove-lookup s key k h =
    ap (λ t. lookup k t.settings) (if_true s.has_app _ s h) ∙ made-lookup s.settings key none k

==_self : (a : ℕ) → (a == a) ≡ true
==_self a = (==_iff a a).1 refl

module _ {M S : Type 0} where
  pub persist-agents :
      (st : Option (Storage S)) (s : Session) (g : Gate M S) → (persist st s g).agents ≡ g.agents
  persist-agents none s g = refl
  persist-agents (some h) s g = elim (Bool-cases (is_empty s.userid)) [
    | inl e ↦ ap (λ r. r.agents) (if_true (is_empty s.userid) g _ e)
    | inr e ↦ ap (λ r. r.agents) (if_false (is_empty s.userid) g _ e)
  ]

  pub put_session-same :
      (a : ℕ) (s : Session) (g : Gate M S) → ((put_session a s g).agents a).session ≡ some s
  put_session-same a s g = ap (λ x. x.session) (if_true (a == a) _ (g.agents a) (==_self a))

  put_session-other :
      (a b : ℕ) (s : Session) (g : Gate M S)
      → (b == a) ≡ false
      → (put_session a s g).agents b ≡ g.agents b
  put_session-other a b s g h = if_false (b == a) _ (g.agents b) h

module _ {M S : Type 0} (bm : BeeMap M ℕ) (storage : Option (Storage S))
    (new_session : Bytes → Result Session) where
  change-session :
      (f : Session → Session) (id : Bytes) (g : Gate M S) (a : ℕ) (s : Session)
      → bm.lookup id g.sessions ≡ some a
      → (g.agents a).session ≡ some s
      → change bm storage new_session f id g
        ≡ (ok (some (f s)), persist storage (f s) (put_session a (f s) g))
  change-session f id g a s ha hs = rw (ha, hs)

  -- Set returns the session of the id with the key at its value and every other key as it was, keeps it as the
  -- session of the agent, and leaves the other agents as they are. (For a session with an application.)
  pub set-session :
      (id key value k : Bytes) (g : Gate M S) (a b : ℕ) (s : Session)
      → bm.lookup id g.sessions ≡ some a
      → (g.agents a).session ≡ some s
      → s.has_app ≡ true
      → (b == a) ≡ false
      → ((set bm storage new_session id key value g).0 ≡ ok (some (Session.set key value s)))
        × (((set bm storage new_session id key value g).1.agents a).session
            ≡ some (Session.set key value s))
        × (lookup k (Session.set key value s).settings
            ≡ (if same k key then some value else lookup k s.settings))
        × ((set bm storage new_session id key value g).1.agents b ≡ g.agents b)
  unfolding set
  set-session id key value k g a b s ha hs happ hb =
      let e = change-session (Session.set key value) id g a s ha hs in
      let s' = Session.set key value s in
      let kept = ap (λ r. r.1.agents) e ∙ persist-agents storage s' (put_session a s' g) in
      (
        ap (λ r. r.0) e,
        ap (λ f. (f a).session) kept ∙ put_session-same a s' g,
        set-lookup s key value k happ,
        ap (λ f. f b) kept ∙ put_session-other a b s' g hb,
      )

  -- Connect puts an agent with a session under the id of that.
  pub connect-registered :
      (a : ℕ) (s : Session) (g : Gate M S)
      → (g.agents a).session ≡ some s
      → connect bm storage new_session a g
        ≡ record g { sessions = bm.insert s.sessionid a g.sessions }
  unfolding connect
  connect-registered a s g h =
      ap
        (λ o. elim (id_of bm storage new_session o) [
          | none ↦ g
          | some id ↦ record g { sessions = bm.insert id a g.sessions }
        ])
        h
