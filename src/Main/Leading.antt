-- ===== src/Main/Leading.antt =====
-- Where the routes of cmd/archive-core/main.go and internal/web/server.go lead.
use varis.Base.{
  ◌≡◌, inl, inr, refl, subst, Bool, true, false, not, ◌||◌, Bool-cases, List, [], ◌∷◌, Option, none,
  some, arith, Text, text_eq, All,
}
use varis.Base.Splitting.{lacks}
use varis.Db.Disks.{has_prefix}
use varis.Main.Routes.{
  Route, Pattern, Entry, Dispatch, chosen, as_segment, match_pattern, strip_prefix, accepts,
  dispatch,
}

-- Every route that a pattern has.
abbrev pub Leads : (Route → Type 0) → Pattern → Type 0
Leads P (Pattern.exact path route) = P route
Leads P (Pattern.segment prefix route) = (rest : Text) → P (route rest)
Leads P (Pattern.subtree prefix route) = P route

pub match_pattern-Leads :
    (P : Route → Type 0) (pattern : Pattern) (path : Text) (route : Route)
    → match_pattern pattern path ≡ some route
    → Leads P pattern
    → P route
unfolding match_pattern
match_pattern-Leads P (Pattern.exact p r) path route e h = elim (Bool-cases (text_eq p path)) [
  | inl here ↦ subst P (ground (arith, e, here)) h
  | inr other ↦ absurd (ground (arith, e, other))
]
match_pattern-Leads P (Pattern.segment prefix r) path route e h = rest (strip_prefix prefix path) e
  where
    rest : (o : Option Text) → as_segment r o ≡ some route → P route
    rest none e = absurd (cc e)
    rest (some t) e = elim (Bool-cases (text_eq t [] || not (lacks b'/' t))) [
      | inl bad ↦ absurd (ground (arith, e, bad))
      | inr good ↦ subst P (ground (arith, e, good)) (h t)
    ]
match_pattern-Leads P (Pattern.subtree prefix r) path route e h =
    elim (Bool-cases (has_prefix prefix path)) [
      | inl here ↦ subst P (ground (arith, e, here)) h
      | inr other ↦ absurd (ground (arith, e, other))
    ]

-- Where each entry that accepts the method and matches the path gives such a route, so does the
-- dispatch.
pub dispatch-All :
    (P : Route → Type 0) (method path : Text) (es : List Entry) (route : Route)
    → All
        (λ e.
          accepts e.method method ≡ true
          → (r : Route) → match_pattern e.pattern path ≡ some r
          → P r)
        es
    → dispatch es method path ≡ Dispatch.to route
    → P route
unfolding dispatch
dispatch-All P method path [] route h e = absurd (cc e)
dispatch-All P method path (x ∷ es) route (h, hs) e =
    at (accepts x.method method) (match_pattern x.pattern path) (dispatch es method path) h
      (dispatch-All P method path es route hs) e
  where
    at :
        (b : Bool) (o : Option Route) (d : Dispatch)
        → (b ≡ true → (r : Route) → o ≡ some r → P r)
        → (d ≡ Dispatch.to route → P route)
        → chosen b o d ≡ Dispatch.to route
        → P route
    at b none d leads later e = later e
    at true (some r) d leads later e = subst P (cc e) (leads refl r refl)
    at false (some r) (Dispatch.to other) leads later e = later e
    at false (some r) Dispatch.no_method leads later e = absurd (cc e)
    at false (some r) Dispatch.no_path leads later e = absurd (cc e)
