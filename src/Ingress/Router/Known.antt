-- ===== src/Ingress/Router/Known.antt =====
-- What the maps of `BuildRouter` know of the routes that it has added, and what it then accepts.
use proxa.Prelude.{
  ◌≡◌, ◌⊎◌, inl, inr, refl, sym, ◌∙◌, Bool, true, false, not, ◌&&◌, ◌||◌, List, [], ◌∷◌, ◌++◌,
  Option, none, some, if◌then◌else◌, is_nil, any, arith, Bool-cases,
}
use proxa.Prelude.Text.{Text, text_eq, text_eq_iff}
use proxa.Prelude.Maps.{lookup, put, lookup-put, text-Eq}
use proxa.Types.{Route}
use proxa.Ingress.{ServiceId, L4Key, L4Route, l4-Eq}
use proxa.Ingress.Router.{
  RouteConflict, l4_conflict, host_conflict, path_conflict, Building, HpKey, hp-Eq, is_some,
  is_other, l4_key, hp_key, add_l4, add_l7, add_route, and_then, add_all, empty, l7_route,
}
use proxa.Ingress.Router.Clashes.{Entry, same_l4, other_owner, same_hp, clashes}

-- No route clashes with an earlier one.
abbrev pub no_clash_after : List Entry → List Entry → Bool
no_clash_after done [] = true
no_clash_after done (x ∷ rest) = not (any (clashes x) done) && no_clash_after (x ∷ done) rest

-- What the maps of `BuildRouter` know of the routes that it has added.
pub record Knows (done : List Entry) (b : Building) : Type 0 where
  pub l4 : (k : L4Key) → is_some (lookup k b.l4) ≡ any (same_l4 k) done
  pub host : (h p : Text) → is_other p (lookup h b.host_to_project) ≡ any (other_owner h p) done
  pub hp : (k : HpKey) → is_some (lookup k b.seen_hp) ≡ any (same_hp k) done

any_or : {A : Type 0} (p q : A → Bool) (l : List A) → any (λ x. p x || q x) l ≡ (any p l || any q l)
any_or p q [] = refl
any_or p q (x ∷ l) = ground (arith, any_or p q l)

abbrev pub accepted : RouteConflict ⊎ Building → Bool
accepted (inl e) = false
accepted (inr b) = true

pub empty-Knows : Knows [] empty
unfolding lookup is_some is_other
empty-Knows = record { l4 = λ k. refl; host = λ h p. refl; hp = λ k. refl }

any_l4 :
    (svc : ServiceId) (rt : Route) (done : List Entry)
    → is_nil rt.l4 ≡ false
    → any (clashes (svc, rt)) done ≡ any (same_l4 (l4_key rt)) done
any_l4 svc rt [] h = refl
any_l4 svc rt (y ∷ done) h = ground (arith, any_l4 svc rt done h)

any_l7 :
    (svc : ServiceId) (rt : Route) (done : List Entry)
    → is_nil rt.l4 ≡ true
    → any (clashes (svc, rt)) done
      ≡ (any (other_owner rt.host svc.project) done || any (same_hp (hp_key svc rt)) done)
any_l7 svc rt [] h = refl
any_l7 svc rt (y ∷ done) h = ground (arith, any_l7 svc rt done h)

-- The maps after a layer-4 route.
with_l4-Knows :
    (svc : ServiceId) (rt : Route) (done : List Entry) (b : Building) (r : L4Route)
    → is_nil rt.l4 ≡ false
    → Knows done b
    → Knows ((svc, rt) ∷ done) (record b { l4 = put (l4_key rt) r b.l4 })
unfolding is_some l4_key
with_l4-Knows svc rt done b r h know = record {
  l4 = λ k. ground (arith, know.l4 k, lookup-put (l4_key rt) k r b.l4);
  host = λ g p. ground (arith, know.host g p);
  hp = λ k. ground (arith, know.hp k);
}

-- Who owns a host after a route of project `p` was added for it, where no other project owned it.
other_after :
    (o : Option Text) (p q : Text) (rest : Bool)
    → is_other p o ≡ false
    → is_other q o ≡ rest
    → not (text_eq p q) ≡ (if not (text_eq p q) then true else rest)
unfolding is_other
other_after none p q rest h e = ground arith
other_after (some o) p q rest h e = ground (arith, text_eq_iff o p)

host-Knows :
    (svc : ServiceId) (rt : Route) (done : List Entry) (b : Building) (g p : Text)
    → is_nil rt.l4 ≡ true
    → is_other svc.project (lookup rt.host b.host_to_project) ≡ false
    → Knows done b
    → is_other p (lookup g (put rt.host svc.project b.host_to_project))
      ≡ any (other_owner g p) ((svc, rt) ∷ done)
host-Knows svc rt done b g p h free know = elim (Bool-cases (text_eq rt.host g)) [
  | inl e ↦
      let same = (text_eq_iff rt.host g).0 e in
      rw (lookup-put rt.host g svc.project b.host_to_project) (
        rw e (
          unfold is_other in
          rw h (
            other_after (lookup g b.host_to_project) svc.project p (any (other_owner g p) done)
              (rw (← same) free) (know.host g p))))
  | inr e ↦ rw (lookup-put rt.host g svc.project b.host_to_project) (rw e (rw h (know.host g p)))
]

-- The maps after a layer-7 route.
with_l7-Knows :
    (svc : ServiceId) (rt : Route) (done : List Entry) (b : Building)
    → is_nil rt.l4 ≡ true
    → is_other svc.project (lookup rt.host b.host_to_project) ≡ false
    → Knows done b
    → Knows ((svc, rt) ∷ done) (record b {
      l7 = b.l7 ++ l7_route svc rt ∷ [];
      host_to_project = put rt.host svc.project b.host_to_project;
      seen_hp = put (hp_key svc rt) true b.seen_hp;
    })
unfolding is_some hp_key
with_l7-Knows svc rt done b h free know = record {
  l4 = λ k. ground (arith, know.l4 k);
  host = λ g p. host-Knows svc rt done b g p h free know;
  hp = λ k. ground (arith, know.hp k, lookup-put (hp_key svc rt) k true b.seen_hp);
}

abbrev with_l4 : ServiceId → Route → Building → Building
with_l4 svc rt b = record b {
  l4 = put (l4_key rt) (record { project = svc.project; service = svc; lb = rt.lb_strategy }) b.l4;
}

abbrev with_l7 : ServiceId → Route → Building → Building
with_l7 svc rt b = record b {
  l7 = b.l7 ++ l7_route svc rt ∷ [];
  host_to_project = put rt.host svc.project b.host_to_project;
  seen_hp = put (hp_key svc rt) true b.seen_hp;
}

-- One round: either the route clashes and the loop returns an error, or the maps know it too.
abbrev Round : ServiceId → Route → List Entry → Building → Type 0
Round svc rt done b =
    ((any (clashes (svc, rt)) done ≡ true) × (e : RouteConflict) × (add_route svc rt b ≡ inl e))
    ⊎ ((any (clashes (svc, rt)) done ≡ false)
        × (b' : Building) × (add_route svc rt b ≡ inr b')
        × Knows ((svc, rt) ∷ done) b')

add_l4-Round :
    (svc : ServiceId) (rt : Route) (done : List Entry) (b : Building)
    → is_nil rt.l4 ≡ false
    → Knows done b
    → Round svc rt done b
unfolding add_route add_l4
add_l4-Round svc rt done b h know = elim (Bool-cases (is_some (lookup (l4_key rt) b.l4))) [
  | inl taken ↦ inl (
    any_l4 svc rt done h ∙ sym (know.l4 (l4_key rt)) ∙ taken,
    l4_conflict (svc, rt),
    rw h (rw taken refl),
  )
  | inr free ↦ inr (
    any_l4 svc rt done h ∙ sym (know.l4 (l4_key rt)) ∙ free,
    with_l4 svc rt b,
    rw h (rw free refl),
    with_l4-Knows svc rt done b _ h know,
  )
]

add_l7-Round :
    (svc : ServiceId) (rt : Route) (done : List Entry) (b : Building)
    → is_nil rt.l4 ≡ true
    → Knows done b
    → Round svc rt done b
unfolding add_route add_l7
add_l7-Round svc rt done b h know =
    let owner = know.host rt.host svc.project in
    let seen = know.hp (hp_key svc rt) in
    elim (Bool-cases (is_other svc.project (lookup rt.host b.host_to_project))) [
      | inl taken ↦ inl (
        any_l7 svc rt done h ∙ rw (← owner, taken) refl,
        host_conflict (svc, rt),
        rw h (rw taken refl),
      )
      | inr free ↦ elim (Bool-cases (is_some (lookup (hp_key svc rt) b.seen_hp))) [
        | inl twice ↦ inl (
          any_l7 svc rt done h ∙ rw (← owner, free, ← seen, twice) refl,
          path_conflict (svc, rt),
          rw h (rw free (rw twice refl)),
        )
        | inr once ↦ inr (
          any_l7 svc rt done h ∙ rw (← owner, free, ← seen, once) refl,
          with_l7 svc rt b,
          rw h (rw free (rw once refl)),
          with_l7-Knows svc rt done b h free know,
        )
      ]
    ]

add_route-Round :
    (svc : ServiceId) (rt : Route) (done : List Entry) (b : Building)
    → Knows done b
    → Round svc rt done b
add_route-Round svc rt done b know = elim (Bool-cases (is_nil rt.l4)) [
  | inl h ↦ add_l7-Round svc rt done b h know
  | inr h ↦ add_l4-Round svc rt done b h know
]

pub add_all-accepted :
    (l done : List Entry) (b : Building)
    → Knows done b
    → accepted (add_all l b) ≡ no_clash_after done l
unfolding add_all and_then
add_all-accepted [] done b know = refl
add_all-accepted ((svc, rt) ∷ rest) done b know = elim (add_route-Round svc rt done b know) [
  | inl (clash, e, at) ↦ rw (at, clash) refl
  | inr (clear, b', at, know') ↦ rw (at, clear) (add_all-accepted rest ((svc, rt) ∷ done) b' know')
]
