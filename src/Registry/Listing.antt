-- ===== src/Registry/Listing.antt =====
-- The bots that List and Resolve give.
use mathlib.Core.Path.{subst}
use yzj_bot_bridge.Prelude.{
  String, ◌≡◌, refl, sym, ap, ◌∙◌, ◌≢◌, ◌⊎◌, inl, inr, Bool, true, not, ◌&&◌, Option, none, some,
  List, [], ◌∷◌, ◌++◌, map, append-nil, append_assoc, arith, eq_iff, ◌==◌, if◌then◌else◌,
  Bool-cases, All, Dict, put, put_self, put_other, trim_space, to_lower,
}
use yzj_bot_bridge.Bots.{Config}
use yzj_bot_bridge.Registry.{
  Registry, new, add_bots, replace, list_from, list_bots, answers_to, resolve_in, resolve,
}

-- The ids of the bots differ.
abbrev pub DistinctIds : List Config → Type 0
DistinctIds [] = Unit
DistinctIds (b ∷ bs) = All (λ c. c.id ≢ b.id) bs × DistinctIds bs

-- The map has exactly these bots under their ids.
abbrev Holds : Dict Config → List Config → Type 0
Holds bots bs = All (λ b. bots b.id ≡ some b) bs

add_bots_other :
    (bs : List Config) (r : Registry) (k : String)
    → All (λ c. c.id ≢ k) bs
    → (add_bots bs r).bots k ≡ r.bots k
unfolding add_bots
add_bots_other [] r k a = refl
add_bots_other (b ∷ bs) r k a =
    add_bots_other bs (record { bots = put b.id b r.bots; order = r.order ++ b.id ∷ [] }) k a.1
    ∙ put_other b.id k b r.bots a.0

add_bots_order :
    (bs : List Config) (r : Registry) → (add_bots bs r).order ≡ r.order ++ map (λ b. b.id) bs
unfolding add_bots
add_bots_order [] r = sym (append-nil r.order)
add_bots_order (b ∷ bs) r =
    add_bots_order bs (record { bots = put b.id b r.bots; order = r.order ++ b.id ∷ [] })
    ∙ append_assoc r.order (b.id ∷ []) (map (λ b. b.id) bs)

add_bots-Holds : (bs : List Config) (r : Registry) → DistinctIds bs → Holds (add_bots bs r).bots bs
unfolding add_bots
add_bots-Holds [] r d = tt
add_bots-Holds (b ∷ bs) r d =
    let r1 : Registry = record { bots = put b.id b r.bots; order = r.order ++ b.id ∷ [] } in
    (add_bots_other bs r1 b.id d.0 ∙ put_self b.id b r.bots, add_bots-Holds bs r1 d.1)

list_from-Holds :
    (bots : Dict Config) (bs : List Config)
    → Holds bots bs
    → list_from bots (map (λ b. b.id) bs) ≡ bs
unfolding list_from
list_from-Holds bots [] h = refl
list_from-Holds bots (b ∷ bs) h = rw (h.0) (ap (λ l. b ∷ l) (list_from-Holds bots bs h.1))

-- After Replace with bots whose ids differ, List gives them in their order, whatever the registry
-- held before.
pub replace-list :
    (bs : List Config) (r : Registry) → DistinctIds bs → list_bots (replace bs r) ≡ bs
unfolding list_bots replace
replace-list bs r d =
    ap (list_from (add_bots bs new).bots) (add_bots_order bs new)
    ∙ list_from-Holds (add_bots bs new).bots bs (add_bots-Holds bs new d)

-- What Resolve may give for a token and a group.
abbrev pub Fits : String → String → Config → Type 0
Fits token group b =
    (answers_to (to_lower (trim_space token)) b ≡ true) × ((group ≡ "") ⊎ (b.group ≡ group))

resolve_in-Fits :
    (token group : String) (bs : List Config) (fallback : Option Config) (b : Config)
    → ((f : Config) → fallback ≡ some f → answers_to token f ≡ true)
    → resolve_in token group bs fallback ≡ some b
    → (answers_to token b ≡ true) × ((group ≡ "") ⊎ (b.group ≡ group))
unfolding resolve_in
resolve_in-Fits token group [] fallback b ok e = elim (Bool-cases (group == "")) [
  | inl any ↦ (
    ok b (sym (ap (λ x. if not x then none else fallback) any) ∙ e),
    inl (==_of_eq_rev group any),
  )
  | inr one ↦ absurd (none_not b (sym (ap (λ x. if not x then none else fallback) one) ∙ e))
]
  where
    none_not : (b : Config) → none ≡ some b → ⊥
    none_not b e = cc

    ==_of_eq_rev : (g : String) → (g == "") ≡ true → g ≡ ""
    ==_of_eq_rev g h = ground (arith, eq_iff g "")
resolve_in-Fits token group (c ∷ cs) fallback b ok e = elim (Bool-cases (answers_to token c)) [
  | inr miss ↦
      resolve_in-Fits token group cs fallback b ok
        (sym (ap (λ x. if x then chosen else skip) miss) ∙ e)
  | inl hit ↦
      let e1 : chosen ≡ some b = sym (ap (λ x. if x then chosen else skip) hit) ∙ e in
      elim (Bool-cases here) [
        | inl one ↦
            let same : some c ≡ some b = sym (ap (λ x. if x then some c else next) one) ∙ e1 in
            subst (λ x. (answers_to token x ≡ true) × ((group ≡ "") ⊎ (x.group ≡ group)))
              (unsome c b same) (hit, inr (ground (arith, eq_iff c.group group)))
        | inr other ↦
            resolve_in-Fits token group cs kept b (kept_ok c fallback hit ok)
              (sym (ap (λ x. if x then some c else next) other) ∙ e1)
      ]
]
  where
    skip : Option Config
    skip = resolve_in token group cs fallback

    kept : Option Config
    kept = elim fallback [ none ↦ some c | some f ↦ some f ]

    next : Option Config
    next = resolve_in token group cs kept

    here : Bool
    here = not (group == "") && c.group == group

    chosen : Option Config
    chosen = if here then some c else next

    unsome : (x y : Config) → some x ≡ some y → x ≡ y
    unsome x y e = ap (λ o. elim o as (λ o. Config) [ none ↦ x | some z ↦ z ]) e

    kept_ok :
        (c : Config) (fallback : Option Config)
        → answers_to token c ≡ true
        → ((f : Config) → fallback ≡ some f → answers_to token f ≡ true)
        → (f : Config)
        → (elim fallback as (λ o. Option Config) [ none ↦ some c | some f ↦ some f ]) ≡ some f
        → answers_to token f ≡ true
    kept_ok c none hit ok f e = subst (λ x. answers_to token x ≡ true) (unsome c f e) hit
    kept_ok c (some g) hit ok f e = ok f e

-- A bot that Resolve gives answers to the token by its id, its role or its name, and is of the group
-- that was asked for, if one was.
pub resolve-Fits :
    (token group : String) (visited : List Config) (b : Config)
    → resolve token group visited ≡ some b
    → Fits token group b
unfolding resolve
resolve-Fits token group visited b e = elim (Bool-cases (key == "")) [
  | inl blank ↦ absurd (none_not (sym (ap (λ x. if x then none else found) blank) ∙ e))
  | inr some_text ↦
      resolve_in-Fits key group visited none b (λ f h. absurd (none_not_some f h))
        (sym (ap (λ x. if x then none else found) some_text) ∙ e)
]
  where
    key : String
    key = to_lower (trim_space token)

    found : Option Config
    found = resolve_in key group visited none

    none_not : none ≡ some b → ⊥
    none_not h = cc

    none_not_some : (f : Config) → none ≡ some f → ⊥
    none_not_some f h = cc
