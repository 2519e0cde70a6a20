-- ===== src/Tests/ListBackend.antt =====
-- A runtime of lists: the ids in use and what is known of each.
use mathlib.Core.List.Memᴰ
use proxa.Prelude.{
  ◌≡◌, ◌⊎◌, inl, inr, refl, sym, ap, ◌∙◌, true, false, Bool-cases, List, [], ◌∷◌, Option, none,
  some, if◌then◌else◌, any, arith, Memᴰ,
}
use proxa.Prelude.Text.{Text, text_eq, text_eq_iff}
use proxa.Types.{ContainerInfo}
use proxa.Docker.{label_project}
use proxa.Reconciler.Diff.{label}
use proxa.Reconciler.Strategy.{
  Call, pull, create_container, start, stop, remove_container, rename, track, untrack,
  await_healthy, await_exit,
}
use proxa.Reconciler.Backend.{Facts, facts_of, effect}

abbrev pub World : Type 0
World = List Text × (Text → Option Facts)

abbrev pub container : Text → Facts → ContainerInfo
container id f = record {
  id = id;
  name = id;
  image = [];
  state = f.state;
  ip_address = [];
  labels = f.labels;
}

abbrev pub look : World → Text → Option Facts
look (ids, v) i = if any (text_eq i) ids then v i else none

abbrev pub shown : Text → Text → Option Facts → List ContainerInfo → List ContainerInfo
shown project id none rest = rest
shown project id (some f) rest =
    if text_eq (label label_project f.labels) project then container id f ∷ rest else rest

abbrev pub walk : Text → (Text → Option Facts) → List Text → List ContainerInfo
walk project v [] = []
walk project v (id ∷ ids) = shown project id (v id) (walk project v ids)

abbrev pub do_call : Text → Call → World → World
do_call new c w = (new ∷ w.0, λ i. effect new c i (look w i))

effect-none :
    (new : Text) (c : Call) (i : Text) → text_eq new i ≡ false → effect new c i none ≡ none
unfolding effect
effect-none new (create_container spec) i h = rw h refl
effect-none new (start id) i h = ground arith
effect-none new (stop id) i h = ground arith
effect-none new (remove_container id) i h = ground arith
effect-none new (pull image) i h = refl
effect-none new (rename id name) i h = refl
effect-none new (track id) i h = refl
effect-none new (untrack id) i h = refl
effect-none new (await_healthy id deadline) i h = refl
effect-none new (await_exit id) i h = refl

pub look-do_call :
    (new : Text) (c : Call) (w : World) (i : Text)
    → look (do_call new c w) i ≡ effect new c i (look w i)
look-do_call new c (ids, v) i = elim (Bool-cases (text_eq i new)) [
  | inl here ↦ rw here refl
  | inr away ↦ elim (Bool-cases (any (text_eq i) ids)) [
    | inl known ↦ rw (away, known) refl
    | inr unknown ↦
        rw (away, unknown)
          (sym (effect-none new c i (ground (arith, away, text_eq_iff new i, text_eq_iff i new))))
  ]
]

mem_of_shown :
    (project id : Text) (o : Option Facts) (rest : List ContainerInfo) (c : ContainerInfo)
    → Memᴰ c (shown project id o rest)
    → ((f : Facts) × (o ≡ some f) × (c ≡ container id f) × (label label_project f.labels ≡ project))
      ⊎ Memᴰ c rest
mem_of_shown project id none rest c m = inr m
mem_of_shown project id (some f) rest c m =
    elim (Bool-cases (text_eq (label label_project f.labels) project)) [
      | inl here ↦ elim (Memᴰ.cases_cons (rw here at m)) [
        | inl e ↦ inl (f, refl, e, (text_eq_iff _ _).0 here)
        | inr t ↦ inr t
      ]
      | inr elsewhere ↦ inr (rw elsewhere at m)
    ]

pub mem_of_walk :
    (project : Text) (v : Text → Option Facts) (ids : List Text) (c : ContainerInfo)
    → Memᴰ c (walk project v ids)
    → (v c.id ≡ some (facts_of c)) × (label label_project c.labels ≡ project)
mem_of_walk project v [] c m = elim m [ ]
mem_of_walk project v (id ∷ ids) c m =
    elim (mem_of_shown project id (v id) (walk project v ids) c m) [
      | inl (f, at, e, inside) ↦ rw e (at, inside)
      | inr t ↦ mem_of_walk project v ids c t
    ]

mem-shown :
    (project id : Text) (o : Option Facts) (rest : List ContainerInfo) (c : ContainerInfo)
    → Memᴰ c rest
    → Memᴰ c (shown project id o rest)
mem-shown project id none rest c m = m
mem-shown project id (some f) rest c m =
    elim (Bool-cases (text_eq (label label_project f.labels) project)) [
      | inl here ↦ rw here (Memᴰ.tail m)
      | inr elsewhere ↦ rw elsewhere m
    ]

pub mem-walk :
    (project : Text) (v : Text → Option Facts) (ids : List Text) (i : Text) (f : Facts)
    → any (text_eq i) ids ≡ true
    → v i ≡ some f
    → label label_project f.labels ≡ project
    → Memᴰ (container i f) (walk project v ids)
mem-walk project v [] i f h e inside = cc
mem-walk project v (id ∷ ids) i f h e inside = elim (Bool-cases (text_eq i id)) [
  | inl same ↦
      let here : v id ≡ some f = sym (ap v ((text_eq_iff i id).0 same)) ∙ e in
      rw (here, (text_eq_iff _ _).1 inside)
        (Memᴰ.head (ap (λ x. container x f) ((text_eq_iff i id).0 same)))
  | inr other ↦
      mem-shown project id (v id) (walk project v ids) (container i f)
        (mem-walk project v ids i f (rw other at h) e inside)
]

pub known : (w : World) (i : Text) (f : Facts) → look w i ≡ some f → any (text_eq i) w.0 ≡ true
known w i f e = elim (Bool-cases (any (text_eq i) w.0)) [ inl h ↦ h | inr h ↦ cc (rw h at e) ]
