-- ===== src/Mock/Routes/Answers.antt =====
-- Which route answers a request: the tests of `_find_matching_api_route`, without the code.
use qsmith.Prelude.{
  String, ◌≡◌, refl, sym, ap, subst, true, false, ◌||◌, ◌⊎◌, inl, inr, Bool-cases, Option, none,
  some, List, [], ◌∷◌, ◌++◌, All, ◌↔◌, eq_iff, and_left, and_right, ◌==◌, ◌∙◌, if◌then◌else◌,
}
use mathlib.Core.Bool.{false≢true}
use mathlib.Core.Option.{some-injective}
use qsmith.Prelude.Dict.{Dict, lookup}
use qsmith.Prelude.Text.{upper, lower, strip}
use qsmith.Json.{Json, str, Fields, end, field, json_eq}
use qsmith.Mock.Routes.{
  MockApiRoute, Request, normalize_path, to_lowercase_keys, entries_match, value_matches,
  map_matches, body_matches, is_null, is_any, route_matches, find_matching_api_route,
}
use qsmith.Mock.Routes.Embeds.{Embeds, contains_iff}

-- The body as it is compared: the JSON value, and otherwise the text.
abbrev pub body_of : Request → Json
body_of request = if is_null request.body_json then str request.body_raw else request.body_json

-- A route without a body, or with the body `ANY`, takes every body. One that compares by `equals`
-- takes the bodies that are equal to its own, and any other those in which its own is embedded.
abbrev pub TakesBody : MockApiRoute → Json → Type 0
TakesBody route actual =
    ((is_null route.body || is_any route.body) ≡ true)
    ⊎ (((route.body_match ≡ "equals") × (json_eq route.body actual ≡ true))
        ⊎ (((route.body_match == "equals") ≡ false) × Embeds route.body actual))

module _ (show : Json → String) where
  -- Every expected entry is in the source, by its key, as a text.
  abbrev pub HasEntries : (String → String) → Dict String → Fields → Type 0
  HasEntries key source end = Unit
  HasEntries key source (field k v rest) =
      (lookup (key k) source ≡ some (show v)) × HasEntries key source rest

  pub record Answers (request : Request) (route : MockApiRoute) : Type 0 where
    pub method : route.method ≡ upper (strip request.method)
    pub path : route.path ≡ normalize_path request.path
    pub params : HasEntries (λ k. k) request.query_params route.params
    pub headers :
        HasEntries
          (λ k. lower (strip k))
          (to_lowercase_keys (to_lowercase_keys request.headers))
          route.headers
    pub body : TakesBody route (body_of request)

  value_matches-some :
      (v : Json) (o : Option String) → value_matches show v o ≡ true → o ≡ some (show v)
  value_matches-some v none h = cc
  value_matches-some v (some s) h = ap some ((eq_iff s (show v)).0 h)

  some-value_matches :
      (v : Json) (o : Option String) → o ≡ some (show v) → value_matches show v o ≡ true
  some-value_matches v o e = rw e ((eq_iff (show v) (show v)).1 refl)

  entries_match-HasEntries :
      (fs : Fields) (d : Dict String)
      → entries_match show false fs d ≡ true
      → HasEntries (λ k. k) d fs
  unfolding entries_match
  entries_match-HasEntries end d h = tt
  entries_match-HasEntries (field k v fs) d h = (
    value_matches-some v (lookup k d) (and_left _ _ h),
    entries_match-HasEntries fs d (and_right _ _ h),
  )

  entries_match-HasEntries_normal :
      (fs : Fields) (d : Dict String)
      → entries_match show true fs d ≡ true
      → HasEntries (λ k. lower (strip k)) d fs
  unfolding entries_match
  entries_match-HasEntries_normal end d h = tt
  entries_match-HasEntries_normal (field k v fs) d h = (
    value_matches-some v (lookup (lower (strip k)) d) (and_left _ _ h),
    entries_match-HasEntries_normal fs d (and_right _ _ h),
  )

  HasEntries-entries_match :
      (fs : Fields) (d : Dict String)
      → HasEntries (λ k. k) d fs
      → entries_match show false fs d ≡ true
  unfolding entries_match
  HasEntries-entries_match end d h = refl
  HasEntries-entries_match (field k v fs) d (e, es) =
      rw (some-value_matches v (lookup k d) e, HasEntries-entries_match fs d es) refl

  HasEntries-entries_match_normal :
      (fs : Fields) (d : Dict String)
      → HasEntries (λ k. lower (strip k)) d fs
      → entries_match show true fs d ≡ true
  unfolding entries_match
  HasEntries-entries_match_normal end d h = refl
  HasEntries-entries_match_normal (field k v fs) d (e, es) =
      rw
        (
          some-value_matches v (lookup (lower (strip k)) d) e,
          HasEntries-entries_match_normal fs d es,
        )
        refl

body_matches-TakesBody :
    (route : MockApiRoute) (request : Request)
    → body_matches route request.body_json request.body_raw ≡ true
    → TakesBody route (body_of request)
unfolding body_matches
body_matches-TakesBody route request h =
    elim (Bool-cases (is_null route.body || is_any route.body)) [
      | inl free ↦ inl free
      | inr bound ↦ elim (Bool-cases (route.body_match == "equals")) [
        | inl equals ↦
            inr (inl ((eq_iff route.body_match "equals").0 equals, rw (bound, equals) at h))
        | inr part ↦
            inr (inr (part, (contains_iff route.body (body_of request)).0 (rw (bound, part) at h)))
      ]
    ]

TakesBody-body_matches :
    (route : MockApiRoute) (request : Request)
    → TakesBody route (body_of request)
    → body_matches route request.body_json request.body_raw ≡ true
unfolding body_matches
TakesBody-body_matches route request (inl free) = rw free refl
TakesBody-body_matches route request (inr (inl (equals, same))) =
    elim (Bool-cases (is_null route.body || is_any route.body)) [
      | inl free ↦ rw free refl
      | inr bound ↦ rw (bound, (eq_iff route.body_match "equals").1 equals) same
    ]
TakesBody-body_matches route request (inr (inr (part, embeds))) =
    elim (Bool-cases (is_null route.body || is_any route.body)) [
      | inl free ↦ rw free refl
      | inr bound ↦ rw (bound, part) ((contains_iff route.body (body_of request)).1 embeds)
    ]

module _ (show : Json → String) (request : Request) where
  route_matches-Answers :
      (route : MockApiRoute) → route_matches show request route ≡ true → Answers show request route
  unfolding route_matches map_matches
  route_matches-Answers route h =
      let h3 = and_left _ _ h in
      let h2 = and_left _ _ h3 in
      let h1 = and_left _ _ h2 in
      record {
        method = (eq_iff route.method (upper (strip request.method))).0 (and_left _ _ h1);
        path = (eq_iff route.path (normalize_path request.path)).0 (and_right _ _ h1);
        params = entries_match-HasEntries show route.params _ (and_right _ _ h2);
        headers = entries_match-HasEntries_normal show route.headers _ (and_right _ _ h3);
        body = body_matches-TakesBody route request (and_right _ _ h);
      }

  Answers-route_matches :
      (route : MockApiRoute) → Answers show request route → route_matches show request route ≡ true
  unfolding route_matches map_matches
  Answers-route_matches route a =
      rw
        (
          (eq_iff route.method (upper (strip request.method))).1 a.method,
          (eq_iff route.path (normalize_path request.path)).1 a.path,
          HasEntries-entries_match show route.params request.query_params a.params,
          HasEntries-entries_match_normal show route.headers _ a.headers,
        )
        (TakesBody-body_matches route request a.body)

  -- The route answers the request, and none before it in the list does.
  abbrev pub IsFirst : List MockApiRoute → MockApiRoute → Type 0
  IsFirst routes route =
      (before after : List MockApiRoute) × (routes ≡ before ++ (route ∷ after))
      × All (λ r. ¬ (Answers show request r)) before
      × Answers show request route

  missed : (r : MockApiRoute) → route_matches show request r ≡ false → ¬ (Answers show request r)
  missed r miss a = false≢true (sym miss ∙ Answers-route_matches r a)

  misses : (r : MockApiRoute) → ¬ (Answers show request r) → route_matches show request r ≡ false
  misses r none_of = elim (Bool-cases (route_matches show request r)) [
    | inl hit ↦ absurd (none_of (route_matches-Answers r hit))
    | inr miss ↦ miss
  ]

  IsFirst-of_found :
      (routes : List MockApiRoute) (route : MockApiRoute)
      → find_matching_api_route show request routes ≡ some route
      → IsFirst routes route
  unfolding find_matching_api_route
  IsFirst-of_found [] route h = cc
  IsFirst-of_found (r ∷ routes) route h = elim (Bool-cases (route_matches show request r)) [
    | inl hit ↦
        let same : r ≡ route = some-injective r route (rw hit at h) in
        (
          [],
          routes,
          ap (λ x. x ∷ routes) same,
          tt,
          subst (λ x. Answers show request x) same (route_matches-Answers r hit),
        )
    | inr miss ↦
        let (before, after, split, fails, hit) = IsFirst-of_found routes route (rw miss at h) in
        (r ∷ before, after, ap (λ rs. r ∷ rs) split, (missed r miss, fails), hit)
  ]

  found_of_first :
      (before after : List MockApiRoute) (route : MockApiRoute)
      → All (λ r. ¬ (Answers show request r)) before
      → Answers show request route
      → find_matching_api_route show request (before ++ (route ∷ after)) ≡ some route
  unfolding find_matching_api_route
  found_of_first [] after route _ hit = rw (Answers-route_matches route hit) refl
  found_of_first (r ∷ before) after route (miss, fails) hit =
      rw (misses r miss) (found_of_first before after route fails hit)

  -- A route is found exactly when it answers the request and no route before it in the list does.
  -- It answers if its method is the request's in upper case, its path is the request's in normal
  -- form, its parameters and its headers (these by keys in lower case) are among the request's with
  -- their values as texts, and it takes the body. It takes every body if its own is null or `ANY`;
  -- a body that is equal to its own if it compares by `equals`; and otherwise a body in which its
  -- own is embedded: every key of a dict is there with an embedded value, every item of a list is
  -- embedded in some item, a text is a part, and any other value is equal.
  pub find_matching_api_route-IsFirst :
      (routes : List MockApiRoute) (route : MockApiRoute)
      → (find_matching_api_route show request routes ≡ some route) ↔ IsFirst routes route
  find_matching_api_route-IsFirst routes route = (
    IsFirst-of_found routes route,
    λ (before, after, split, fails, hit). rw split (found_of_first before after route fails hit),
  )
