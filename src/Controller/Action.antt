-- ===== src/Controller/Action.antt =====
-- The actions of internal/controller/actions.go, as values: one constructor for each type that
-- implements `Action`, with a constructor of `AnyPod` for each instance of the generic ones.
use ipman.Prelude.{String, List}
use ipman.Api.{IpSecConnection}
use ipman.Controller.State.{IpmanPod, CharonPodSpec, RestctlPodSpec, XfrmPod}

pub data AnyPod : Type 0 where
  charon : IpmanPod CharonPodSpec → AnyPod
  restctl : IpmanPod RestctlPodSpec → AnyPod
  xfrm : XfrmPod → AnyPod

pub data Action : Type 0 where
  delete_monitor create_monitor : Action
  create_pod : AnyPod → Action
  delete_pod : AnyPod → Action
  add_local_route : String → XfrmPod → Action
  delete_local_route : String → XfrmPod → Action
  add_remote_route : String → XfrmPod → Action
  delete_remote_route : String → XfrmPod → Action
  -- The VXLAN address, the underlying address, the pod.
  add_bridge_fdb : String → String → XfrmPod → Action
  delete_bridge_fdb : String → String → XfrmPod → Action
  -- The restctl pod's name and the connections.
  override_config : String → List IpSecConnection → Action
  -- The connection, the child, restctl's address.
  restart_child_connection : String → String → String → Action
  update_child_connection_status : String → Action
