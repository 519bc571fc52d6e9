-- ===== src/Xfrminion.antt =====
-- The handlers of routes in cmd/xfrminion/main.go. Parameters: the kernel, as the package netlink
-- and the program `bridge` reach it, and net.ParseCIDR. A request is decoded, or it is none.
pub mod Routes
use Prim.Native.String
use ipman.Prelude.{
  ℕ, String, ◌==◌, Bool, true, false, not, ◌&&◌, nat_eq, List, [], ◌∷◌, Option, none, some,
  if◌then◌else◌,
}

pub record Link : Type 0 where
  pub kind : String
  pub name : String
  pub index : ℕ

-- The destination is a network, as net.ParseCIDR reads it.
pub record Route : Type 0 where
  pub link_index : ℕ
  pub dst : String

-- The answers of the kernel in a state. An error of a route call is its text; a command gives its
-- output, and whether it failed.
pub record Kernel (K : Type 0) : Type 0 where
  pub link_list : K → Option (List Link)
  pub route_add : Route → K → K × Option String
  pub route_del : Route → K → K × Option String
  pub run : List String → K → K × (String × Bool)
  pub parse_cidr : String → Option String

-- The status code of the reply. A handler panics where it calls Error on a nil error, or reads
-- through a nil link.
pub data Reply : Type 0 where
  ok : Reply
  refused : ℕ → Reply
  panics : Reply

-- The last link of a kind.
unfoldable pub find_link : String → List Link → Option Link → Option Link
find_link kind [] found = found
find_link kind (l ∷ ls) found = find_link kind ls (if l.kind == kind then some l else found)

module _ {K : Type 0} (kernel : Kernel K) where
  -- The part of a handler behind the listing of links: `missing` is the reply without a link, and
  -- `act` what is done with the link.
  abbrev pub on_link : String → Reply → (Link → K → K × Reply) → K → K × Reply
  on_link kind missing act k = elim (kernel.link_list k) [
    | none ↦ (k, refused 400)
    | some links ↦ elim (find_link kind links none) [ none ↦ (k, missing) | some link ↦ act link k ]
  ]

  abbrev pub on_request : Option String → (String → K → K × Reply) → K → K × Reply
  on_request none act k = (k, refused 400)
  on_request (some text) act k = act text k

  abbrev pub reply_tolerant : K × Option String → K × Reply
  reply_tolerant (k, none) = (k, ok)
  reply_tolerant (k, some e) = (k, if e == "file exists" then ok else refused 400)

  abbrev pub reply_strict : K × Option String → K × Reply
  reply_strict (k, none) = (k, ok)
  reply_strict (k, some e) = (k, refused 400)

  -- The network of the request, and the call for its route.
  abbrev pub on_route : (Route → K → K × Reply) → String → Link → K → K × Reply
  on_route act text link k = elim (kernel.parse_cidr text) [
    | none ↦ (k, refused 400)
    | some net ↦ act (record { link_index = link.index; dst = net }) k
  ]

  unfoldable pub add_local_route : Option String → K → K × Reply
  unfolding find_link
  add_local_route request = on_request request (λ text.
      on_link "vxlan" (refused 400) (on_route (λ r k. reply_tolerant (kernel.route_add r k)) text))

  unfoldable pub delete_local_route : Option String → K → K × Reply
  unfolding find_link
  delete_local_route request = on_request request (λ text.
      on_link "vxlan" (refused 400) (on_route (λ r k. reply_strict (kernel.route_del r k)) text))

  unfoldable pub add_remote_route : Option String → K → K × Reply
  unfolding find_link
  add_remote_route request =
      on_request request (λ text.
        on_link "xfrm" panics (on_route (λ r k. reply_tolerant (kernel.route_add r k)) text))

  unfoldable pub delete_remote_route : Option String → K → K × Reply
  unfolding find_link
  delete_remote_route request =
      on_request request (λ text.
        on_link "xfrm" panics (on_route (λ r k. reply_tolerant (kernel.route_del r k)) text))

  -- Output without an error is refused with the text of a nil error.
  abbrev pub command_reply : K × (String × Bool) → (K → K × Reply) → K × Reply
  command_reply (k, (out, true)) next = (k, refused 409)
  command_reply (k, (out, false)) next = if out == "" then next k else (k, panics)

  abbrev fdb_command : String → String → Link → List String
  fdb_command verb ip link =
      "bridge" ∷ "fdb" ∷ verb ∷ "00:00:00:00:00:00" ∷ "dev" ∷ link.name ∷ "dst" ∷ ip ∷ []

  unfoldable pub add_bridge_fdb : Option String → K → K × Reply
  unfolding find_link
  add_bridge_fdb request = on_request request (λ ip.
      on_link "vxlan" panics
        (λ link k. command_reply (kernel.run (fdb_command "append" ip link) k) (λ k2. (k2, ok))))

  -- The command that deletes the entries of the address; its errors are only logged.
  abbrev sweep : String → Link → List String
  sweep ip link =
      "bash"
      ∷ "-c"
      ∷ String.◌++◌ "bridge fdb show | grep " (
          String.◌++◌ ip (
            String.◌++◌ " | awk '{print $1}' | xargs -I {arg} bridge fdb del {arg} dev "
              (String.◌++◌ link.name (String.◌++◌ " dst " ip))))
      ∷ []

  unfoldable pub delete_bridge_fdb : Option String → K → K × Reply
  unfolding find_link
  delete_bridge_fdb request = on_request request (λ ip. on_link "vxlan" panics (λ link k.
      command_reply (kernel.run (fdb_command "delete" ip link) k)
        (λ k2. ((kernel.run (sweep ip link) k2).0, ok))))
