-- ===== src/Controller/Routing.antt =====
-- `Do` of AddLocalRouteAction, DeleteLocalRouteAction and AddRemoteRouteAction in
-- internal/controller/actions.go, with the handlers of cmd/xfrminion that they call.
pub mod Installed
use ipman.Prelude.{String, Bool, true, false, Option, none, some, if◌then◌else◌}
use ipman.Errors.{Try, done, fails, panics, message, as_wrapped, ◌>>=◌}
use ipman.Controller.State.{Routes, XfrmPodSpec, XfrmPod}
use ipman.Controller.CorePod.{CorePod, xfrm_from_pod}
use ipman.Controller.Effect.{record_add_local, record_delete_local, record_add_remote}
use ipman.Xfrminion.{
  Kernel, Reply, ok, refused, panics as no_reply, add_local_route, delete_local_route,
  add_remote_route,
}

-- The pod that waitForPodReady gives, json.Unmarshal at its annotation, and whether
-- updateXfrmSpecAnnotation can write a pod's annotation.
pub record RouteAnswers : Type 0 where
  pub wait : Try CorePod
  pub unmarshal : String → XfrmPodSpec
  pub writes : XfrmPod → Bool

-- A handler that panics closes the connection, which SendPost returns as an error.
abbrev pub told : Reply → Try (Unit {0})
told ok = done tt
told (refused code) = fails (message "response status code not 200")
told no_reply = fails (message "Couldn't send post")

abbrev pub with_routes : Routes → XfrmPod → XfrmPod
with_routes rs x = record x { spec = record x.spec { routes = rs } }

-- Behind the reply: the pod whose annotation is written, if it is; the error is dropped.
abbrev pub record_told : (Routes → Routes) → RouteAnswers → CorePod → Reply → Try (Option XfrmPod)
record_told change a p reply = do
  answered ← told reply
  x ← xfrm_from_pod a.unmarshal p
  let after = with_routes (change x.spec.routes) x
  done (if a.writes after then some after else none)

module _ {K : Type 0} where
  abbrev pub call_pod :
      (Option String → K → K × Reply)
      → (Routes → Routes)
      → RouteAnswers
      → String
      → Try CorePod
      → K
      → K × Try (Option XfrmPod)
  call_pod handler change a route (fails e) k = (k, fails e)
  call_pod handler change a route panics k = (k, panics)
  call_pod handler change a route (done p) k =
      let (k2, reply) = handler (some route) k in (k2, record_told change a p reply)

  unfoldable pub do_add_local_route :
      Kernel K → RouteAnswers → String → K → K × Try (Option XfrmPod)
  unfolding add_local_route record_add_local xfrm_from_pod
  do_add_local_route kernel a route =
      call_pod (add_local_route kernel) (record_add_local route) a route a.wait

  unfoldable pub do_delete_local_route :
      Kernel K → RouteAnswers → String → K → K × Try (Option XfrmPod)
  unfolding delete_local_route record_delete_local xfrm_from_pod
  do_delete_local_route kernel a route =
      call_pod (delete_local_route kernel) (record_delete_local route) a route a.wait

  unfoldable pub do_add_remote_route :
      Kernel K → RouteAnswers → String → K → K × Try (Option XfrmPod)
  unfolding add_remote_route record_add_remote xfrm_from_pod
  do_add_remote_route kernel a route =
      call_pod (add_remote_route kernel) (record_add_remote route) a route
        (as_wrapped "Error waiting for pod ready" a.wait)
