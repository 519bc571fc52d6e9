-- ===== src/Api.antt =====
-- The resources of api/v1: IPSec connections, their children and charon groups.
-- Left out of the records: Kubernetes' type and object metadata but for names and namespaces.
use ipman.Prelude.{
  ℕ, ◌-◌, ◌%◌, ◌^◌, String, ◌==◌, Bool, false, ◌&&◌, Option, none, Slice, GoMap, Map, nat_eq,
  option_eq, map_eq, strings_eq, string_map_eq,
}

pub record CharonGroupRef : Type 0 where
  pub name : String
  pub namespace : String

-- SameNsn
unfoldable pub same_nsn : CharonGroupRef → CharonGroupRef → Bool
same_nsn a b = a.namespace == b.namespace && a.name == b.name

pub record SecretRef : Type 0 where
  pub name : String
  pub namespace : String
  pub key : String

unfoldable pub secret_ref_equal : SecretRef → SecretRef → Bool
secret_ref_equal a b = a.name == b.name && a.namespace == b.namespace && a.key == b.key

-- `if_id` is a Go int that `uint32` cuts to 32 bits; `negsuc n` is -(n + 1).
pub data ℤ : Type 0 where
  pos : ℕ → ℤ
  negsuc : ℕ → ℤ

unfoldable pub int_eq : ℤ → ℤ → Bool
int_eq (pos m) (pos n) = nat_eq m n
int_eq (pos m) (negsuc n) = false
int_eq (negsuc m) (pos n) = false
int_eq (negsuc m) (negsuc n) = nat_eq m n

unfoldable pub uint32 : ℤ → ℕ
uint32 (pos n) = n % 2 ^ 32
uint32 (negsuc n) = 2 ^ 32 - 1 - n % 2 ^ 32

pub record Child : Type 0 where
  pub name : String
  pub local_ips : Slice String
  pub remote_ips : Slice String
  pub xfrm_if_id : ℤ
  pub ip_pools : GoMap (Slice String)
  pub xfrm_ip : String
  pub vxlan_ip : String
  pub extra : GoMap String

unfoldable pub pools_eq : GoMap (Slice String) → GoMap (Slice String) → Bool
unfolding option_eq map_eq strings_eq
pools_eq = option_eq (map_eq strings_eq)

-- reflect.DeepEqual on children
unfoldable pub child_eq : Child → Child → Bool
unfolding strings_eq int_eq pools_eq string_map_eq
child_eq a b =
    a.name == b.name
    && strings_eq a.local_ips b.local_ips
    && strings_eq a.remote_ips b.remote_ips
    && int_eq a.xfrm_if_id b.xfrm_if_id
    && pools_eq a.ip_pools b.ip_pools
    && a.xfrm_ip == b.xfrm_ip
    && a.vxlan_ip == b.vxlan_ip
    && string_map_eq a.extra b.extra

-- EqualExceptChangable
unfoldable pub equal_except_changable : Child → Child → Bool
unfolding child_eq
equal_except_changable c c2 =
    child_eq (record c { ip_pools = none; local_ips = none })
      (record c2 { ip_pools = none; local_ips = none })

pub record IpSecConnectionSpec : Type 0 where
  pub name : String
  pub remote_addr : String
  pub local_addr : String
  pub local_id : String
  pub remote_id : String
  pub secret_ref : SecretRef
  pub children : Map Child
  pub extra : Map String
  pub group : CharonGroupRef

pub record IpSecConnectionStatus : Type 0 where
  pub xfrm_gateway_ips : GoMap String
  pub free_ips : GoMap (GoMap (Slice String))
  pub pending_ips : GoMap String
  pub state : String
  pub children_state : GoMap String

pub record IpSecConnection : Type 0 where
  pub name : String
  pub spec : IpSecConnectionSpec
  pub status : IpSecConnectionStatus

pub record CharonGroup : Type 0 where
  pub name : String
  pub namespace : String
  pub host_network : Bool
  pub charon_extra_annotations : GoMap String
  pub node_name : String
  pub interface_name : Option String
