-- ===== src/Lib.antt =====
-- Verification library of the IPMan operator, which runs IPSec connections in a Kubernetes cluster.
--
-- The program. The operator (internal/controller) compares the state that the connections ask for
-- with the cluster's, and carries out the actions that make up the difference. For each group of
-- connections it keeps a charon pod, a restctl pod (cmd/restctl) that drives the charon daemon and
-- reports connections that are down, and an xfrm pod for each child, which is told its routes. A
-- mutating webhook (internal/webhook/v1) hands an address of a child's pool to every worker pod, a
-- validating one checks the connections. They meet in the status of a connection: the operator
-- computes its free addresses, the webhook takes one and records it as pending.
--
-- The files:
--   Prelude: shared names, lists, association lists for Go's maps, nil slices and maps, sorting.
--   Api: the resources of api/v1 and their comparisons. Kube: what is read of a worker pod.
--   Swan: pkg/swanparse and the visitor of cmd/restctl/visitor.go. Ast is the parser's tree,
--     Collector is ConnectionCollector, Visitor is StrongSwanVisitor, Status is checkStatus of
--     cmd/restctl/main.go, Restart is its restart handlers, and Names reads the same facts off the
--     tree without a walk.
--   Errors: what the API server answers, Go's errors, and results.
--   Controller: State is state.go, Action and Effect are actions.go, Diff is the functions of
--     ipman_controller.go that compare states: Pods (diffImmutablePod, FindPod, ...), Routes
--     (diffRoutes), Xfrms (createXfrmPod, recreatePod, diffXfrms), IpSecs (diffIPSecs), Proxy
--     (diffProxy) and States (DiffStates, which calls the others).
--     FreeIps is updateIPSecConnectionStatus. CorePod reads pods (CharonFromPod, XfrmFromPod, ...),
--     Create makes them (CreateK8sPodMeta, ApplySpec), Workers is CreateWorkers, Desired is
--     CreateDesiredState with all that it calls, Observed is GetClusterState, Status is UpdateStatus
--     and its retries, and Reconcile is Reconcile, which calls the others. Wait is the loops of
--     generic.go and waitForJobCompletion, Setup is the rest of xfrm_pod.go: CompleteSetup with the
--     job that it creates, and CompleteDeletion. Override is OverrideConfigAction.Do of actions.go, with
--     what restctl is sent, and Routing is the route actions' Do with the handlers of Xfrminion that
--     they call.
--   Restctl: the rest of cmd/restctl/main.go. Time is normalizeTime, Translate is translate, Reload
--     is reloadConfig, Downgrade is downgradeConnectionStatus, with the restart actions of
--     internal/controller/actions.go that answer it.
--   Xfrminion: the handlers of routes in cmd/xfrminion/main.go.
--   Webhook: Creation, Unique, Update and Review are validating_webhook.go, Patch and Allocate are
--     mutating_webhook.go.
--   Tests: runs of the theorems at concrete inputs.
--
-- How code is read. A Go map is an association list whose order stands for the order of one
-- iteration; where it matters that keys differ, a theorem says so. A nil slice or map is `none`. An
-- error is a value, a log line is left out. The loops on fuel are the binary search of diffXfrms,
-- whose fuel is the length of the list, at least the length of any interval that it searches; the
-- retries of Reconcile, with fuel for all six calls; the digits of a printed number, with the number
-- as fuel; the loop of reloadConfig for a client, which has no bound, for any fuel; and the loops
-- that wait, each with fuel for all rounds that its counter allows: 60 for a job to complete, 30 and
-- 31 for a job in the way, the configured limit and one for a pod. CompleteSetup calls waitForPodReady
-- once, as what that returns has an address. A text whose characters matter is the list of their
-- codes.
--
-- Parameters: the package r3labs/diff with its documented behaviour, the clock and the parser of
-- times, the JSON encoder and decoder, reflect.DeepEqual at the groups, the printing of integers,
-- net.ParseCIDR, what the API server and the daemon's vici socket answer, and what carries out an
-- action in Reconcile, what the xfrm pod replies to CompleteSetup, and in Xfrminion the kernel, as
-- netlink and the program bridge reach it. The list calls of one kind in one run have the same answer.
--
-- Not modelled: the grammar of swanctl's output (the package participle), HTTP, and what only calls
-- the network or the kernel: setupVxlan of cmd/xfrminion, cmd/xfrminjector, cmd/vxlandlord, the
-- exporter of restctl and the start of the operator. Effect says what a route action records in the
-- annotation and how far it gets (no pod, a nil pod, an empty address), with the calls of the
-- cluster and the pod taken to succeed; Routing has the request of AddLocalRouteAction,
-- DeleteLocalRouteAction and AddRemoteRouteAction, and an annotation that is not written.
pub mod Prelude
pub mod Swan
pub mod Errors
pub mod Api
pub mod Kube
pub mod Controller
pub mod Restctl
pub mod Xfrminion
pub mod Webhook
pub mod Tests
