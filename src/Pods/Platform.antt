-- ===== src/Pods/Platform.antt =====
-- The types of Kubernetes that the pods use, and the functions of other libraries on them. What is
-- not read by the code is left out.
use aerospike_operator.Prelude.{Bool, Option, List, Text, Result, ℤ, codes}
use aerospike_operator.Api.{Kube}

-- `Quantity` is resource.Quantity, `Float` is float64. Durations and times are in nanoseconds.
pub record Platform : Type 1 where
  pub kube : Kube
  pub Quantity : Type 0
  pub parse_quantity : Text → Option Quantity
  pub exceeds : Quantity → Quantity → Bool
  pub is_zero : Quantity → Bool
  pub requests_cpu : kube.Resources → Option Quantity
  pub requests_memory : kube.Resources → Option Quantity
  pub has_limits : kube.Resources → Bool
  pub limits_cpu : kube.Resources → Option Quantity
  pub limits_memory : kube.Resources → Option Quantity
  pub Float : Type 0
  pub parse_float : Text → Option Float
  pub print_hours_of_days : Float → Text
  pub parse_go_duration : Text → Result Text ℤ
  pub parse_time : Text → Result Text ℤ
  pub print_time : ℤ → Text
  pub md5_hex : Text → Text
  pub debug_enabled : Bool
  pub operator_version : Text

pub data Phase : Type 0 where
  pending running succeeded failed unknown : Phase

-- The state of a container: the exit code if it has terminated, the reason if it waits.
pub record ContainerStatus : Type 0 where
  pub terminated : Option ℤ
  pub waiting : Option Text

-- `ready` is what podutil.IsPodReady answers.
pub record PodStatus : Type 0 where
  pub phase : Phase
  pub ready : Bool
  pub pod_ip : Text
  pub init_container_statuses : List ContainerStatus
  pub container_statuses : List ContainerStatus

pub data VolumeSource : Type 0 where
  config_map_source claim_source : Text → VolumeSource
  empty_dir : VolumeSource

pub record Volume : Type 0 where
  pub name : Text
  pub source : VolumeSource

-- The limits of a container: of each resource, the quantity if there is one.
pub record Limits (p : Platform) : Type 0 where
  pub cpu : Option p.Quantity
  pub memory : Option p.Quantity

-- The parts of the spec that depend on the cluster, the config map or the index. Mounts and devices
-- are those of the server's container: a volume and a path.
pub record PodSpec (p : Platform) : Type 0 where
  pub init_image : Text
  pub init_command : List Text
  pub image : Text
  pub cpu_request : p.Quantity
  pub memory_request : p.Quantity
  pub limits : Limits p
  pub volume_mounts : List (Text × Text)
  pub volume_devices : List (Text × Text)
  pub volumes : List Volume
  pub hostname : Text
  pub subdomain : Text
  pub node_selector : Option (List (Text × Text))
  pub tolerations : Option (List p.kube.Toleration)
  pub anti_affinity : Option Text

pub record Pod (p : Platform) : Type 0 where
  pub name : Text
  pub namespace : Text
  pub labels : List (Text × Text)
  pub annotations : List (Text × Text)
  pub spec : PodSpec p
  pub status : PodStatus

pub data VolumeMode : Type 0 where
  block filesystem : VolumeMode

-- A claim; `generate_name` and `size` are read by the server that creates it.
pub record Claim (p : Platform) : Type 0 where
  pub name : Text
  pub generate_name : Text
  pub namespace : Text
  pub created : ℤ
  pub labels : List (Text × Text)
  pub annotations : List (Text × Text)
  pub size : p.Quantity
  pub volume_mode : Option VolumeMode
  pub storage_class_name : Option Text

-- pkg/utils/selectors: the labels of the objects of a cluster.
abbrev pub label_app_key : Text
label_app_key = codes "app"

abbrev pub label_app_val : Text
label_app_val = codes "aerospike"

abbrev pub label_cluster_key : Text
label_cluster_key = codes "cluster"

abbrev pub label_namespace_key : Text
label_namespace_key = codes "namespace"
