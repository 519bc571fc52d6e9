-- ===== src/Controller/Setup/Gateway.antt =====
-- What a set-up xfrm pod leaves in the connection's status.
use ipman.Prelude.{
  ℕ, String, ◌==◌, ◌≡◌, ◌≢◌, sym, ◌∙◌, inl, inr, true, false, Option, none, some, elems, lookup,
  lookup-insert, eq_iff, arith, str_cases,
}
use ipman.Errors.{bind-done, unwrapped, GoError, Try, done, as_wrapped}
use ipman.Api.{IpSecConnection}
use ipman.Controller.State.{XfrmProperties}
use ipman.Controller.Create.{Envs}
use ipman.Controller.Wait.{PodStatus, has_address, wait_for_pod_ready, wait_for_job_completion}
use ipman.Controller.Wait.Limits.{wait_for_pod_ready-has_address}
use ipman.Controller.Setup.{
  SetupAnswers, wait_for_address, get_pid, create_job, create_xfrm_job, check_vxlan, set_gateway,
  or_update_error, complete_setup,
}

-- The last step of CompleteSetup has run.
record Ended (a : SetupAnswers) (props : XfrmProperties) (pod ready : PodStatus)
    (c : IpSecConnection) : Type 0 where
  conn : IpSecConnection
  fetched : as_wrapped "Couldn't get ipsec connection" a.conn ≡ done conn
  waited : wait_for_address 1 a.wait pod ≡ done ready
  written : c ≡ set_gateway props.owner_child ready.pod_ip conn

updated : (err : Option GoError) (x c : IpSecConnection) → or_update_error err x ≡ done c → c ≡ x
updated none x c h = cc
updated (some e) x c h = cc

complete_setup-Ended :
    (e : Envs) (a : SetupAnswers) (props : XfrmProperties) (pod : PodStatus) (c : IpSecConnection)
    → complete_setup e a props pod ≡ done c
    → (ready : PodStatus) × Ended a props pod ready c
unfolding complete_setup
complete_setup-Ended e a props pod c h =
    let (ready, waited, h1) = bind-done (wait_for_address 1 a.wait pod) _ c h in
    let (pid, got, h2) = bind-done (get_pid a.pid_reply) _ c h1 in
    let (group, listed, h3) = bind-done a.group _ c h2 in
    let (job, made, h4) =
      bind-done
        (create_job a (create_xfrm_job e pid props.interface_id props.owner_connection group)) _ c
        h3 in
    let (finished, ended, h5) =
      bind-done
        (as_wrapped "Creating xfrm interface job failed" (wait_for_job_completion a.poll job)) _ c
        h4 in
    let (vxlan, checked, h6) = bind-done (check_vxlan a.setup_vxlan) _ c h5 in
    let (conn, fetched, h7) =
      bind-done (as_wrapped "Couldn't get ipsec connection" a.conn) _ c h6 in
    (
      ready,
      record {
        conn = conn;
        fetched = fetched;
        waited = waited;
        written =
            updated (a.put (set_gateway props.owner_child ready.pod_ip conn))
              (set_gateway props.owner_child ready.pod_ip conn) c h7;
      },
    )

wait_for_address-has_address :
    (wait : Try PodStatus) (pod ready : PodStatus)
    → ((p : PodStatus) → wait ≡ done p → has_address p ≡ true)
    → wait_for_address 1 wait pod ≡ done ready
    → ready.pod_ip ≢ ""
unfolding wait_for_address
wait_for_address-has_address wait pod ready given h = elim (str_cases pod.pod_ip "") [
  | inr (n, e) ↦ let same : pod ≡ ready = cc (rw (wait_for_address, e) at h) in rw (sym same) n
  | inl e ↦
      let none_yet : (pod.pod_ip == "") ≡ true = ground (arith, eq_iff pod.pod_ip "") in
      let (p, waited, rest) =
        bind-done wait (λ q. wait_for_address 0 wait q) ready
          (rw (wait_for_address, none_yet) at h) in
      let same : p ≡ ready = cc rest in
      let there : has_address ready ≡ true = rw (sym same) (given p waited) in
      λ empty. ground (arith, there, empty, eq_iff ready.pod_ip "")
]

-- What the connection's status says of a gateway, and that nothing else of the map is changed.
pub record IsGateway (props : XfrmProperties) (ip : String) (conn c : IpSecConnection)
    : Type 0 where
  pub set : lookup props.owner_child (elems c.status.xfrm_gateway_ips) ≡ some ip
  pub others :
      (k : String)
      → k ≢ props.owner_child
      → lookup k (elems c.status.xfrm_gateway_ips) ≡ lookup k (elems conn.status.xfrm_gateway_ips)

set_gateway-IsGateway :
    (props : XfrmProperties) (ip : String) (conn : IpSecConnection)
    → IsGateway props ip conn (set_gateway props.owner_child ip conn)
unfolding set_gateway
set_gateway-IsGateway props ip conn = record {
  set = ground (
    arith,
    lookup-insert props.owner_child props.owner_child ip (elems conn.status.xfrm_gateway_ips),
    eq_iff props.owner_child props.owner_child,
  );
  others = λ k n. ground (
    arith,
    n,
    lookup-insert props.owner_child k ip (elems conn.status.xfrm_gateway_ips),
    eq_iff props.owner_child k,
  );
}

-- If CompleteSetup succeeds, where its waiting for the pod does as waitForPodReady does, it has
-- written an address to the connection that it fetched: a non-empty one for the pod's child, the
-- others unchanged.
pub complete_setup-IsGateway :
    (e : Envs) (a : SetupAnswers) (props : XfrmProperties) (pod : PodStatus) (c : IpSecConnection)
    (limit : ℕ) (get : ℕ → Try PodStatus)
    → a.wait ≡ wait_for_pod_ready limit false get
    → complete_setup e a props pod ≡ done c
    → (ip : String) × (conn : IpSecConnection) × (ip ≢ "")
      × (a.conn ≡ done conn)
      × IsGateway props ip conn c
complete_setup-IsGateway e a props pod c limit get waits h =
    let (ready, end) = complete_setup-Ended e a props pod c h in
    (
      ready.pod_ip,
      end.conn,
      wait_for_address-has_address a.wait pod ready
          (λ p w. wait_for_pod_ready-has_address limit get p (sym waits ∙ w)) end.waited,
      unwrapped "Couldn't get ipsec connection" a.conn end.conn end.fetched,
      rw end.written (set_gateway-IsGateway props ready.pod_ip end.conn),
    )
