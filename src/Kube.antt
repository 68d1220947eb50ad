-- ===== src/Kube.antt =====
-- The Kubernetes objects and the client that the controller is given. The client, and the retry
-- helper of client-go, are not code of the repository: they are the parameter `Resource`.
pub mod Laws
use argo_supply_chain_securi.Prelude.{
  ℕ, String, Bool, Option, none, some, List, [], ◌==◌, ◌&&◌, if◌then◌else◌,
}
use argo_supply_chain_securi.Prelude.Dict
use argo_supply_chain_securi.Prelude.Dict.{Dict}
use argo_supply_chain_securi.Go.{Error}

-- A map[string]string that may be nil.
abbrev pub Metadata : Type 0
Metadata = Option (Dict String)

-- v, ok := m[k], which a nil map answers too
unfoldable pub find : String → Metadata → Option String
unfolding Dict.lookup
find k none = none
find k (some m) = Dict.lookup k m

pub record NamespacedName : Type 0 where
  pub namespace : String
  pub name : String

-- The part of metav1.ObjectMeta that the source reads or writes.
pub record ObjectMeta : Type 0 where
  pub namespace : String
  pub name : String
  pub labels : Metadata
  pub annotations : Metadata

abbrev pub key_of : ObjectMeta → NamespacedName
key_of m = record { namespace = m.namespace; name = m.name }

-- What a call of the client leaves: its error, the object it was handed, and the cluster.
pub record Reply (W O : Type 0) : Type 0 where
  pub error : Option Error
  pub object : O
  pub world : W

-- The client at objects of type O in a world of type W. `get` and `patch` write into the object
-- that they are handed; `patch original` sends the merge patch from `original`. `on_error` is
-- retry.OnError with its steps, and `pause` is the wait between two of its attempts.
pub record Resource (W O : Type 0) : Type 0 where
  pub meta : O → ObjectMeta
  pub deep_copy : O → Option O
  pub get : NamespacedName → O → W → Reply W O
  pub patch : O → O → W → Reply W O
  pub on_error : ℕ → (Error → Bool) → (O → W → Reply W O) → O → W → Reply W O
  pub pause : W → W

-- getMetadata and setMetadata: one of an object's two maps.
pub record Accessor (O : Type 0) : Type 0 where
  pub read : O → Metadata
  pub write : O → Metadata → O

pub data PodPhase : Type 0 where
  succeeded : PodPhase
  other_phase : String → PodPhase

-- corev1.Pod
pub record Pod : Type 0 where
  pub meta : ObjectMeta
  pub phase : PodPhase

abbrev pub pod_annotations : Accessor Pod
pod_annotations = record {
  read = λ p. p.meta.annotations;
  write = λ p m. record p { meta = record p.meta { annotations = m } };
}
