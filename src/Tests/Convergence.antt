-- ===== src/Tests/Convergence.antt =====
-- One tick over a container that has exited and one that runs an old specification.
use mathlib.Core.List.Memᴰ
use proxa.Prelude.{
  ◌*◌, ◌+◌, suc, ◌≡◌, inl, inr, refl, sym, ◌∙◌, true, false, List, [], ◌∷◌, none, some, Memᴰ, arith,
  if◌then◌else◌, ℕ,
}
use proxa.Prelude.Int.{ℤ, pos, negsuc}
use proxa.Prelude.Text.{Text, codes, text_eq}
use proxa.Reconciler.Strategy.{Request, spec_for}
use proxa.Docker.{label_spec_hash}
use proxa.Docker.Containers.{created_labels}
use proxa.Reconciler.Strategy.Labels.{slot_of-created}
use proxa.Prelude.Maps.{lookup}
use proxa.Types.{ContainerInfo}
use proxa.Hash.{hash}
use proxa.Reconciler.Diff.{Slot, compute, keeps_slot, is_active, slot_of, label}
use proxa.Reconciler.Backend.{facts_of, Backend, apply_all}
use proxa.Reconciler.Backend.Converge.{apply_all-compute}
use proxa.Tests.Fixtures.{plain, web, web_task, replica}
use proxa.Tests.ListBackend.{
  World, container, look, walk, do_call, look-do_call, mem_of_walk, mem-walk, known,
}

abbrev request : Request
request = record {
  project = codes "shop";
  service = codes "web";
  replica_idx = pos 4207;
  old_id = [];
  new_spec = web_task;
}

abbrev labelled : ContainerInfo
labelled = record {
  id = codes "c9";
  name = [];
  image = [];
  state = codes "created";
  ip_address = [];
  labels = created_labels (spec_for plain request []) (codes "n1") (codes "2026-01-02T03:04:05Z");
}

slot_of-created_example :
    (slot_of labelled
      ≡ some (record { project = codes "shop"; service = codes "web"; replica = pos 4207 }))
    × (label label_spec_hash labelled.labels ≡ hash plain web_task)
slot_of-created_example =
    slot_of-created plain request [] (codes "n1") (codes "2026-01-02T03:04:05Z") labelled 4207 refl
      (omega arith) refl

-- The interface holds of it.
abbrev list_backend : Backend World
list_backend = record {
  view = look;
  list_containers = λ project w. walk project (look w) w.0;
  perform = do_call;
  view-perform = look-do_call;
  listed = λ project w c m. mem_of_walk project (look w) w.0 c m;
  lists = λ project w i f e inside.
      (container i f, mem-walk project (look w) w.0 i f (known w i f e) e inside, refl, refl);
}

abbrev exited : ContainerInfo
exited = replica (codes "c0") (codes "exited") (pos 0) (hash plain web_task)

abbrev stale : ContainerInfo
stale = replica (codes "c1") (codes "running") (pos 1) (codes "old")

abbrev world : World
world = (
  codes "c0" ∷ codes "c1" ∷ [],
  λ i.
      if text_eq i (codes "c0")
      then some (facts_of exited)
      else if text_eq i (codes "c1")
      then some (facts_of stale)
      else none,
)

-- Ids that name their slots, and start with a byte that no id in use has.
abbrev number : ℤ → ℕ
number (pos n) = 2 * n
number (negsuc n) = 2 * n + 1

abbrev quoted : Text → Text → Text
quoted [] rest = 0 ∷ rest
quoted (c ∷ s) rest = suc c ∷ quoted s rest

abbrev new_id : Slot → Text
new_id k = 0 ∷ quoted k.project (number k.replica ∷ k.service)

number-distinct : (a b : ℤ) → number a ≡ number b → a ≡ b
number-distinct a b e = ground arith

quoted-distinct : (p q s t : Text) → quoted p s ≡ quoted q t → (p ≡ q) × (s ≡ t)
quoted-distinct [] [] s t e = ground arith
quoted-distinct [] (c ∷ q) s t e = absurd (ground arith)
quoted-distinct (c ∷ p) [] s t e = absurd (ground arith)
quoted-distinct (c ∷ p) (d ∷ q) s t e = ground (arith, quoted-distinct p q s t)

new_id-distinct : (j k : Slot) → new_id j ≡ new_id k → j ≡ k
new_id-distinct j k e =
    let (p, rest) =
      quoted-distinct j.project k.project (number j.replica ∷ j.service)
        (number k.replica ∷ k.service) (ground arith) in
    ground (arith, number-distinct j.replica k.replica)

abbrev listed : List ContainerInfo
listed = list_backend.list_containers (codes "shop") world

listed_now :
    listed ≡ container (codes "c0") (facts_of exited) ∷ container (codes "c1") (facts_of stale) ∷ []
unfolding label lookup text_eq
listed_now = refl

only_stale :
    (c : ContainerInfo) → Memᴰ c listed → keeps_slot (λ id. false) c ≡ true → c.id ≡ codes "c1"
unfolding keeps_slot is_active text_eq label lookup
only_stale c m h = elim (Memᴰ.cases_cons m) [
  | inl e ↦ cc (rw e at h)
  | inr t ↦ rw (Memᴰ.eq_of_singleton t) refl
]

apply_all-compute_example :
    compute plain
      (web ∷ [])
      (list_backend.list_containers
        (codes "shop")
        (apply_all list_backend plain new_id (compute plain (web ∷ []) listed (λ id. false)) world))
      (λ id. false)
    ≡ []
apply_all-compute_example =
    apply_all-compute list_backend plain (codes "shop") (web ∷ []) (λ id. false) world new_id
      (λ s m. rw (Memᴰ.eq_of_singleton m) refl) (λ s m. rw (Memᴰ.eq_of_singleton m) refl)
      (λ c d k m n p q r s. only_stale c m p ∙ sym (only_stale d n q)) (unfold text_eq in refl)
      (λ k. unfold text_eq in refl) new_id-distinct (λ k. refl)
