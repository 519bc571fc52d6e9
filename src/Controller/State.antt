-- ===== src/Controller/State.antt =====
-- internal/controller/state.go and the pod specifications of charon_pod.go, restctl_pod.go and
-- xfrm_pod.go.
use ipman.Prelude.{ℕ, String, Bool, List, Option, Slice, GoMap}
use ipman.Api.{CharonGroupRef}

pub record PodMeta : Type 0 where
  pub name : String
  pub namespace : String
  pub ip : String
  pub node_name : String
  pub image : String

pub record IpmanPod (S : Type 0) : Type 0 where
  pub meta : PodMeta
  pub spec : S
  pub annotations : GoMap String
  pub group : CharonGroupRef

pub record CharonPodSpec : Type 0 where
  pub host_path : String
  pub host_network : Bool

pub record RestctlPodSpec : Type 0 where
  pub host_path : String

pub record XfrmProperties : Type 0 where
  pub owner_child : String
  pub owner_connection : String
  pub interface_id : ℕ
  pub xfrm_ip : String
  pub vxlan_ip : String

pub record Routes : Type 0 where
  pub local : Slice String
  pub remote : Slice String
  pub bridge_fdb : GoMap String

pub record XfrmPodSpec : Type 0 where
  pub routes : Routes
  pub props : XfrmProperties

abbrev pub XfrmPod : Type 0
XfrmPod = IpmanPod XfrmPodSpec

pub record IpSecConnectionState : Type 0 where
  pub name : String
  pub state : String
  pub children_state : GoMap String
  pub group : CharonGroupRef

pub record GroupState : Type 0 where
  pub charon : Option (IpmanPod CharonPodSpec)
  pub proxy : Option (IpmanPod RestctlPodSpec)
  pub xfrms : List XfrmPod
  pub group_ref : CharonGroupRef
  pub ip_secs : List IpSecConnectionState

pub record ClusterState : Type 0 where
  pub groups : List GroupState
  pub pod_monitor : Bool
