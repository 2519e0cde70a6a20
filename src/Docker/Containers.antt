-- ===== src/Docker/Containers.antt =====
-- internal/runtime/docker/container.go and labels.go: what the runtime asks of the Docker daemon, and how it reads
-- the answers.
pub mod Created
use proxa.Prelude.{
  ℕ, Bool, true, false, List, [], ◌∷◌, ◌++◌, Option, none, some, if◌then◌else◌, is_nil, map, ◌/◌,
}
use mathlib.Core.Option
use proxa.Prelude.Int.{ℤ, pos, leb_ℤ, pos_part}
use proxa.Prelude.Text.{Text, codes, atoi, show_ℤ}
use proxa.Prelude.Maps.{Map, lookup, put, text-Eq}
use proxa.Types.{ContainerInfo, ContainerSpec}
use proxa.Docker.{label_project, label_service, label_replica, label_spec_hash}

abbrev pub label_managed : Text
label_managed = codes "proxa.managed"

abbrev pub label_node_id : Text
label_node_id = codes "proxa.node"

abbrev pub label_created_at : Text
label_created_at = codes "proxa.created_at"

abbrev pub value_of : Text → Map Text Text → Text
value_of k m = Option.get_or (lookup k m) []

-- `BuildContainerLabels`: the labels of the specification, with Proxa's own written over them.
unfoldable pub build_container_labels :
    ContainerSpec → (replica : ℤ) → (spec_hash node_id now : Text) → Map Text Text
build_container_labels spec replica spec_hash node_id now = put label_created_at now (
    put label_node_id node_id (
      put label_spec_hash spec_hash (
        put label_replica (show_ℤ replica) (
          put label_service (value_of label_service spec.labels) (
            put label_project (value_of label_project spec.labels)
              (put label_managed (codes "true") spec.labels))))))

-- The labels that `CreateContainer` sends: the replica, 0 where its label is no number, and the hash are read
-- from the specification's.
unfoldable pub created_labels : ContainerSpec → (node_id now : Text) → Map Text Text
unfolding build_container_labels
created_labels spec node_id now =
    build_container_labels spec (Option.get_or (atoi (value_of label_replica spec.labels)) (pos 0))
      (value_of label_spec_hash spec.labels) node_id now

-- `container.Summary`, as far as it is read.
pub record Summary : Type 0 where
  pub id : Text
  pub names : List Text
  pub image : Text
  pub state : Text
  pub labels : Map Text Text

pub first_name : List Text → Text
first_name [] = []
first_name (n ∷ rest) = n

-- The loop of `ListContainers` and of `ListAllContainers`.
unfoldable pub info_of : Summary → ContainerInfo
unfolding first_name
info_of s = record {
  id = s.id;
  name = first_name s.names;
  image = s.image;
  state = s.state;
  ip_address = [];
  labels = s.labels;
}

-- The values of the `label` filter.
pub label_filters : (project : Text) → Map Text Text → List Text
label_filters project extra =
    (label_managed ++ codes "=true")
    ∷ (label_project ++ codes "=" ++ project)
    ∷ map (λ (p : Text × Text). p.0 ++ codes "=" ++ p.1) extra

-- `ListContainers`; `container_list` is the daemon, and `none` an error.
unfoldable pub list_containers :
    (container_list : List Text → Option (List Summary))
    → (project : Text) → Map Text Text
    → Option (List ContainerInfo)
unfolding info_of label_filters
list_containers container_list project extra =
    if is_nil project
    then none
    else Option.map (map info_of) (container_list (label_filters project extra))

-- The first network with an address, in the order in which the map is met.
pub first_address : Map Text Text → Text
first_address [] = []
first_address ((name, ip) ∷ rest) = if is_nil ip then first_address rest else ip

-- The address of `InspectContainer`: that of the network "bridge", else of the first that has one; a network
-- without an endpoint has the empty address.
unfoldable pub inspect_address : Map Text Text → Text
unfolding first_address
inspect_address networks =
    let bridge = value_of (codes "bridge") networks in
    if is_nil bridge then first_address networks else bridge

-- The whole seconds of a grace period in nanoseconds, ten by default.
unfoldable pub grace_seconds : ℤ → ℤ
grace_seconds grace = if leb_ℤ grace (pos 0) then pos 10 else pos (pos_part grace / 1000000000)

-- `RenameContainer` refuses an empty text.
unfoldable pub may_rename : (id new_name : Text) → Bool
may_rename id new_name = if is_nil id then false else if is_nil new_name then false else true

-- `tailValue`
unfoldable pub tail_value : ℤ → Text
tail_value n = if leb_ℤ (pos 0) n then show_ℤ n else codes "all"
