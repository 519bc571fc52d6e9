-- ===== src/Webhook/Review.antt =====
-- `ServeHTTP` and `getAction` of internal/webhook/v1/validating_webhook.go. Parameters: the JSON
-- decoder, the package net, and the answers of the cluster to `List` and `Get`.
use ipman.Prelude.{String, ◌==◌, Bool, not, ◌&&◌, List, Option, none, some, if◌then◌else◌}
use ipman.Api.{IpSecConnection, CharonGroup}
use ipman.Kube.{Pod}
use ipman.Webhook.Verdict.{
  Verdict, denied, bad_old_object, bad_new_object, cannot_list_pods, cannot_list_connections,
  no_group, unknown_action,
}
use ipman.Webhook.Creation.{validate_creation, validate_deletion}
use ipman.Webhook.Update.{validate_update}

pub data Operation : Type 0 where
  creation deletion update unknown : Operation

-- The raw objects of a request.
pub record Request : Type 0 where
  pub old_object : String
  pub object : String

unfoldable pub get_action : Request → Operation
get_action r =
    if r.old_object == "" && not (r.object == "")
    then creation
    else if not (r.old_object == "") && r.object == ""
    then deletion
    else if not (r.old_object == "") && not (r.object == "")
    then update
    else unknown

-- What the cluster answers, with none for an error.
pub record Cluster : Type 0 where
  pub pods : Option (List Pod)
  pub connections : Option (List IpSecConnection)
  pub group : String → String → Option CharonGroup

pub data Answer : Type 0 where
  answered : Verdict → Answer
  panics : Answer

module _ {Ip Net : Type 0} (parse_cidr : String → Option (Ip × Net)) (contains_ip : Net → Ip → Bool)
    (unmarshal : String → Option IpSecConnection) where
  unfoldable pub review_creation : Cluster → List Pod → Request → Verdict
  unfolding validate_creation
  review_creation k pods r = elim k.connections [
    | none ↦ denied cannot_list_connections
    | some cs ↦ elim (unmarshal r.object) [
      | none ↦ denied bad_new_object
      | some c ↦ elim (k.group c.spec.group.namespace c.spec.group.name) [
        | none ↦ denied no_group
        | some g ↦ validate_creation c cs pods
      ]
    ]
  ]

  unfoldable pub review_deletion : List Pod → Request → Verdict
  unfolding validate_deletion
  review_deletion pods r = elim (unmarshal r.old_object) [
    | none ↦ denied bad_old_object
    | some c ↦ validate_deletion c pods
  ]

  unfoldable pub review_update : List Pod → Request → Verdict
  unfolding validate_update
  review_update pods r = elim (unmarshal r.old_object) [
    | none ↦ denied bad_old_object
    | some old ↦ elim (unmarshal r.object) [
      | none ↦ denied bad_new_object
      | some new ↦ validate_update parse_cidr contains_ip new old pods
    ]
  ]

  -- A request that does not parse has no review to answer with.
  unfoldable pub serve_http : Cluster → Option Request → Answer
  unfolding get_action review_creation review_deletion review_update
  serve_http k none = panics
  serve_http k (some r) = elim k.pods [
    | none ↦ answered (denied cannot_list_pods)
    | some pods ↦ answered (elim (get_action r) [
      | creation ↦ review_creation k pods r
      | deletion ↦ review_deletion pods r
      | update ↦ review_update pods r
      | unknown ↦ denied unknown_action
    ])
  ]
