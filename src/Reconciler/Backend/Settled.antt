-- ===== src/Reconciler/Backend/Settled.antt =====
-- What an action leaves, where all goes well.
use proxa.Prelude.{
  ◌≡◌, ◌⊎◌, inl, inr, refl, sym, ap, ◌∙◌, true, false, List, [], ◌∷◌, Option, none, some,
  if◌then◌else◌, Memᴰ, Bool-cases, Option-cases, arith, is_nil,
}
use mathlib.Core.Option
use mathlib.Core.List.Memᴰ
use proxa.Prelude.Text.{Text, codes, text_eq, text_eq_iff}
use proxa.Hash.{Encoding, hash}
use proxa.Reconciler.Diff.{Action, ActionType, create, remove, replace, Slot}
use proxa.Reconciler.Strategy.{
  Call, Strategy, apply, start_first_strategy, stop_first_strategy, apply_strategy, request_of,
  select_strategy, by_type,
}
use proxa.Reconciler.Strategy.Calls.{
  all_well, slot_of_action, made_labels, calls_of_create, calls_of_start_first, calls_of_stop_first,
  calls_of_remove, calls_of_replace,
}
use proxa.Reconciler.Backend.{Facts, effect, Backend, replay, apply_all}

-- A running container of a slot, with the hash of the specification it was made from.
abbrev pub fresh : Slot → Text → Facts
fresh k h = record { state = codes "running"; labels = made_labels k h }

-- The last word of an action on a container: none where it does not touch it.
unfoldable pub assigns : Encoding → Text → Action → ActionType → Text → Option (Option Facts)
assigns enc new a create i =
    if text_eq new i then some (some (fresh (slot_of_action a) a.spec_hash)) else none
assigns enc new a remove i = if text_eq a.container_id i then some none else none
assigns enc new a replace i =
    if text_eq new i
    then some (some (fresh (slot_of_action a) (hash enc a.spec)))
    else if text_eq a.container_id i
    then some none
    else none

abbrev effects : Text → List Call → Text → Option Facts → Option Facts
effects new [] i o = o
effects new (c ∷ cs) i o = effects new cs i (effect new c i o)

other_id : (id new i : Text) → text_eq new i ≡ true → text_eq id new ≡ false → text_eq id i ≡ false
other_id id new i e ne = sym (ap (text_eq id) ((text_eq_iff new i).0 e)) ∙ ne

settled_create :
    (enc : Encoding) (new : Text) (a : Action) (i : Text) (o : Option Facts)
    → effects new (by_type enc (all_well new) a create).0 i o
      ≡ Option.get_or (assigns enc new a create i) o
unfolding effect assigns
settled_create enc new a i o =
    let (s, labels, calls) = calls_of_create enc new a in
    rw (calls, labels) (elim (Bool-cases (text_eq new i)) [ inl e ↦ rw e refl | inr e ↦ rw e refl ])

settled_start_first :
    (enc : Encoding) (new : Text) (a : Action) (i : Text) (o : Option Facts)
    → is_nil a.container_id ≡ false
    → text_eq a.container_id new ≡ false
    → effects new (apply_strategy enc (all_well new) (request_of a) start_first_strategy).0 i o
      ≡ Option.get_or (assigns enc new a replace i) o
unfolding effect assigns
settled_start_first enc new a i o h ne =
    let (s, labels, calls) = calls_of_start_first enc new a h in
    rw (calls, labels)
      (elim (Bool-cases (text_eq new i)) [
        | inl e ↦ let away = other_id a.container_id new i e ne in rw (e, away) refl
        | inr e ↦ elim (Bool-cases (text_eq a.container_id i)) [
          | inl old ↦ rw (e, old) refl
          | inr unknown ↦ rw (e, unknown) refl
        ]
      ])

settled_stop_first :
    (enc : Encoding) (new : Text) (a : Action) (i : Text) (o : Option Facts)
    → is_nil a.container_id ≡ false
    → effects new (apply_strategy enc (all_well new) (request_of a) stop_first_strategy).0 i o
      ≡ Option.get_or (assigns enc new a replace i) o
unfolding effect assigns
settled_stop_first enc new a i o h =
    let (s, labels, calls) = calls_of_stop_first enc new a h in
    rw (calls, labels)
      (elim (Bool-cases (text_eq new i)) [
        | inl e ↦ rw e refl
        | inr e ↦ elim (Bool-cases (text_eq a.container_id i)) [
          | inl old ↦ rw (e, old) refl
          | inr unknown ↦ rw (e, unknown) refl
        ]
      ])

-- A replacement names the container that it replaces, which is not the new one.
abbrev pub IsReady : Text → Action → ActionType → Type 0
IsReady new a create = Unit
IsReady new a remove = Unit
IsReady new a replace = (is_nil a.container_id ≡ false) × (text_eq a.container_id new ≡ false)

module _ (enc : Encoding) (new : Text) (a : Action) (i : Text) (o : Option Facts) where
  settled_strategy :
      (s : Strategy)
      → IsReady new a replace
      → effects new (apply_strategy enc (all_well new) (request_of a) s).0 i o
        ≡ Option.get_or (assigns enc new a replace i) o
  settled_strategy start_first_strategy (h, ne) = settled_start_first enc new a i o h ne
  settled_strategy stop_first_strategy (h, ne) = settled_stop_first enc new a i o h

  settled_type :
      (t : ActionType)
      → IsReady new a t
      → effects new (by_type enc (all_well new) a t).0 i o ≡ Option.get_or (assigns enc new a t i) o
  settled_type create r = settled_create enc new a i o
  settled_type remove r = rw (calls_of_remove enc new a) (unfold assigns effect in ground arith)
  settled_type replace r =
      rw (calls_of_replace enc new a) (settled_strategy (select_strategy a.spec) r)

module _ {W : Type 0} (rt : Backend W) where
  view-replay :
      (new : Text) (cs : List Call) (w : W) (i : Text)
      → rt.view (replay rt new cs w) i ≡ effects new cs i (rt.view w i)
  unfolding replay
  view-replay new [] w i = refl
  view-replay new (c ∷ cs) w i =
      view-replay new cs (rt.perform new c w) i ∙ ap (effects new cs i) (rt.view-perform new c w i)

  pub view-apply :
      (enc : Encoding) (new : Text) (a : Action) (w : W) (i : Text)
      → IsReady new a a.type
      → rt.view (replay rt new (apply enc (all_well new) a).0 w) i
        ≡ Option.get_or (assigns enc new a a.type i) (rt.view w i)
  unfolding apply
  view-apply enc new a w i r =
      view-replay new (by_type enc (all_well new) a a.type).0 w i
      ∙ settled_type enc new a i (rt.view w i) a.type r

abbrev pub touch : Encoding → (Slot → Text) → Action → Text → Option (Option Facts)
touch enc new_id a i = assigns enc (new_id (slot_of_action a)) a a.type i

module _ {W : Type 0} (rt : Backend W) (enc : Encoding) (new_id : Slot → Text) where
  -- Either an action touches a container, and the last that does so has the last word, or none does and
  -- the container is as it was.
  pub last_touch :
      (l : List Action) (w : W) (i : Text)
      → ((a : Action) → Memᴰ a l → IsReady (new_id (slot_of_action a)) a a.type)
      → ((a : Action) × Memᴰ a l
          × (touch enc new_id a i ≡ some (rt.view (apply_all rt enc new_id l w) i)))
        ⊎ (((a : Action) → Memᴰ a l → touch enc new_id a i ≡ none)
            × (rt.view (apply_all rt enc new_id l w) i ≡ rt.view w i))
  unfolding apply_all
  last_touch [] w i r = inr ((λ a m. elim m [ ]), refl)
  last_touch (a ∷ l) w i r =
      let new = new_id (slot_of_action a) in
      let next = replay rt new (apply enc (all_well new) a).0 w in
      let here = view-apply rt enc new a w i (r a (Memᴰ.head refl)) in
      elim (last_touch l next i (λ b m. r b (Memᴰ.tail m))) [
        | inl (b, m, e) ↦ inl (b, Memᴰ.tail m, e)
        | inr (others, same) ↦ elim (Option-cases (touch enc new_id a i)) [
          | inl untouched ↦ inr (
            (λ b m. elim (Memᴰ.cases_cons m) [ inl e ↦ rw e untouched | inr t ↦ others b t ]),
            same ∙ here ∙ (rw untouched refl),
          )
          | inr (v, t) ↦ inl (a, Memᴰ.head refl, t ∙ ap some (sym (same ∙ here ∙ (rw t refl))))
        ]
      ]
