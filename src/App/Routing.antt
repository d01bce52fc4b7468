-- ===== src/App/Routing.antt =====
-- Which server a filter leads to.
use lodos.Base.{
  ℕ, zero, suc, ◌%◌, ◌<◌, ◌≡◌, refl, sym, ap, ◌∙◌, ◌⊎◌, Bool, Bool-cases, inl, inr, true, false,
  Option, none, some, List, [], ◌∷◌, ◌==◌, ==_iff, if◌then◌else◌, if_true, if_false, length, same,
  same-eq, same_self, split_at, arith,
}
use mathlib.Core.Path.{subst}
use native.Mathlib.Nat.{mod-lt}
use lodos.App.{
  ModuleSession, Servers, Route, get_servers_by_type, at, default_route, by_filter,
  get_route_server, or_default,
}
use lodos.Io.Reader.{Bytes}

-- The session is one of the list.
abbrev pub In : ModuleSession → List ModuleSession → Type 0
In s [] = ⊥
In s (t ∷ ts) = (s ≡ t) ⊎ In s ts

at-In :
    (n : ℕ) (ts : List ModuleSession)
    → n < length ts
    → (s : ModuleSession) × (at n ts ≡ some s) × In s ts
at-In n [] h = absurd (omega (arith, h))
at-In zero (t ∷ ts) h = (t, refl, inl refl)
at-In (suc n) (t ∷ ts) h = let (s, p, q) = at-In n ts (omega (arith, h)) in (s, p, inr q)

kept_or :
    (b : Bool) (typ : Bytes) (t : ModuleSession) (order rest : List ModuleSession)
    (s : ModuleSession)
    → same t.m_type typ ≡ b
    → (In s rest → In s order × (s.m_type ≡ typ))
    → In s (if b then t ∷ rest else rest)
    → In s (t ∷ order) × (s.m_type ≡ typ)
kept_or true typ t order rest s e f (inl p) =
    (inl p, ap (λ (x : ModuleSession). x.m_type) p ∙ same-eq t.m_type typ e)
kept_or true typ t order rest s e f (inr h) = let (a, q) = f h in (inr a, q)
kept_or false typ t order rest s e f h = let (a, q) = f h in (inr a, q)

get_servers_by_type-In :
    (typ : Bytes) (order : List ModuleSession) (s : ModuleSession)
    → In s (get_servers_by_type typ order)
    → In s order × (s.m_type ≡ typ)
get_servers_by_type-In typ [] s h = elim h [ ]
get_servers_by_type-In typ (t ∷ order) s h =
    kept_or (same t.m_type typ) typ t order (get_servers_by_type typ order) s refl
      (get_servers_by_type-In typ order s) h

In-if :
    (b : Bool) (t s : ModuleSession) (rest : List ModuleSession)
    → In s rest
    → In s (if b then t ∷ rest else rest)
In-if true t s rest h = inr h
In-if false t s rest h = h

-- Every server of the type is among those of the type.
In-get_servers_by_type :
    (typ : Bytes) (order : List ModuleSession) (s : ModuleSession)
    → In s order
    → s.m_type ≡ typ
    → In s (get_servers_by_type typ order)
In-get_servers_by_type typ [] s h e = elim h [ ]
In-get_servers_by_type typ (t ∷ order) s (inl p) e =
    let is_one : same t.m_type typ ≡ true =
      ap (λ x. same x typ) (sym (ap (λ (x : ModuleSession). x.m_type) p) ∙ e) ∙ same_self typ in
    subst (In s) (sym (if_true (same t.m_type typ) _ _ is_one)) (inl p)
In-get_servers_by_type typ (t ∷ order) s (inr h) e =
    In-if (same t.m_type typ) t s (get_servers_by_type typ order)
      (In-get_servers_by_type typ order s h e)

none_In : (s : ModuleSession) (ts : List ModuleSession) → length ts ≡ 0 → In s ts → ⊥
none_In s [] e h = h
none_In s (t ∷ ts) e h = absurd (omega (arith, e))

-- What the default route gives: a server of the type, or nothing where there is none.
abbrev pub Finds : List ModuleSession → Bytes → Option ModuleSession → Type 0
Finds order typ o =
    ((s : ModuleSession) × (o ≡ some s) × In s order × (s.m_type ≡ typ))
    ⊎ ((o ≡ none) × ((s : ModuleSession) → In s order → s.m_type ≡ typ → ⊥))

default_route-Finds :
    (checksum : Bytes → ℕ) (order : List ModuleSession) (typ hash : Bytes)
    → Finds order typ (default_route checksum order typ hash)
unfolding default_route
default_route-Finds checksum order typ hash =
    let servers = get_servers_by_type typ order in
    elim (Bool-cases (length servers == 0)) [
      | inl e ↦ inr (
        if_true (length servers == 0) _ _ e,
        λ s h q.
            none_In s servers ((==_iff (length servers) 0).0 e)
              (In-get_servers_by_type typ order s h q),
      )
      | inr e ↦
          let (s, p, h) =
            at-In (checksum hash % length servers) servers
              (mod-lt (checksum hash) (ground (arith, e))) in
          let (a, q) = get_servers_by_type-In typ order s h in
          inl (s, if_false (length servers == 0) _ _ e ∙ p, a, q)
    ]

-- A filter that names a type leads, where the type has no route of its own, to a server of that type, and to none
-- only where there is none.
pub get_route_server-Finds :
    (checksum : Bytes → ℕ) (order : List ModuleSession) (servers : Servers)
    (routes : Bytes → Option Route) (filter typ hash : Bytes)
    → split_at b'@' filter ≡ typ ∷ []
    → routes typ ≡ none
    → Finds order typ (get_route_server servers routes (default_route checksum order) filter hash)
unfolding get_route_server
get_route_server-Finds checksum order servers routes filter typ hash h r =
    let default = default_route checksum order in
    subst (Finds order typ)
      (sym (
        ap (λ ts. by_filter ts servers routes default hash) h
        ∙ ap (λ o. or_default o default typ hash) r))
      (default_route-Finds checksum order typ hash)
