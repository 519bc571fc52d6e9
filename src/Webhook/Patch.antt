-- ===== src/Webhook/Patch.antt =====
-- The JSON patch that `patch` of internal/webhook/v1/mutating_webhook.go makes, before it is
-- marshalled. `strconv.FormatInt`, also for the verb %d, is the parameter `format_int`.
use ipman.Prelude.{ℕ, suc, String, List, [], ◌∷◌, ◌++◌, Map, elems, join, nat_eq, if◌then◌else◌}
use Prim.Native.Char.{code}
use Prim.Native.String
use ipman.Api.{Child, ℤ, pos}

pub record EnvVar : Type 0 where
  pub name : String
  pub value : String

-- Of corev1.Container; `image` and `env` of the containers that the webhook makes.
pub record Container : Type 0 where
  pub name : String
  pub image : String
  pub env : List EnvVar

pub data Value : Type 0 where
  text : String → Value
  vars : List EnvVar → Value
  one : Container → Value
  many : List Container → Value

-- jsonPatch
pub record JsonPatch : Type 0 where
  pub op : String
  pub path : String
  pub value : Value

-- What a pod's specification has that the patch depends on.
pub record PodSpec : Type 0 where
  pub containers : List Container
  pub init_containers : List Container

abbrev add : String → Value → JsonPatch
add p v = record { op = "add"; path = p; value = v }

abbrev var : String → String → EnvVar
var n v = record { name = n; value = v }

-- The part before the first slash: addr, _, _ := strings.Cut(ip, "/")
unfoldable pub cut_slash : String → String
cut_slash String.[] = ""
cut_slash (String.◌∷◌ c s) =
    let rest = cut_slash s in if nat_eq (code c) 0x2f then "" else String.◌∷◌ c rest

-- strings.Replace(key, "/", "~1", 1)
unfoldable pub escape_slash : String → String
escape_slash String.[] = ""
escape_slash (String.◌∷◌ c s) =
    let rest = escape_slash s in
    if nat_eq (code c) 0x2f then String.◌++◌ "~1" s else String.◌∷◌ c rest

unfoldable pub annotation_patch : Map String → List JsonPatch
unfolding escape_slash
annotation_patch [] = []
annotation_patch ((k, v) ∷ m) =
    add (String.◌++◌ "/metadata/annotations/" (escape_slash k)) (text v) ∷ annotation_patch m

module _ (format_int : ℤ → String) where
  unfoldable pub init_container : Child → String → String → String → Container
  unfolding join
  init_container child gateway ip image = record {
    name = "iface-request";
    image = image;
    env =
        var "VXLAN_IP" ip
        ∷ var "XFRM_GATEWAY_IP" gateway
        ∷ var "INTERFACE_ID" (format_int child.xfrm_if_id)
        ∷ var "XFRM_IP" child.xfrm_ip
        ∷ var "REMOTE_IPS" (join (elems child.remote_ips) ",")
        ∷ [];
  }

  -- The loop over the containers from the i-th.
  unfoldable pub env_patch_from : ℕ → String → List Container → List JsonPatch
  env_patch_from i addr [] = []
  env_patch_from i addr (c ∷ cs) =
      add (String.◌++◌ "/spec/containers/" (String.◌++◌ (format_int (pos i)) "/env"))
        (vars (var "VXLAN_IP" addr ∷ c.env))
      ∷ env_patch_from (suc i) addr cs

  unfoldable pub env_patch : PodSpec → String → List JsonPatch
  unfolding env_patch_from cut_slash
  env_patch p ip = env_patch_from 0 (cut_slash ip) p.containers

  unfoldable pub init_container_patch : PodSpec → Child → String → String → String → JsonPatch
  unfolding init_container
  init_container_patch p child gateway ip image = elim p.init_containers [
    | [] ↦ add "/spec/initContainers" (many (init_container child gateway ip image ∷ []))
    | c ∷ cs ↦ add "/spec/initContainers/-" (one (init_container child gateway ip image))
  ]

  unfoldable pub patch : PodSpec → String → String → Map String → Child → String → List JsonPatch
  unfolding annotation_patch init_container_patch env_patch
  patch p ip gateway annotations child image =
      annotation_patch annotations
      ++ init_container_patch p child gateway ip image
        ∷ (env_patch p ip ++ add "/metadata/labels/ipman.dialo.ai~1worker" (text child.name) ∷ [])
