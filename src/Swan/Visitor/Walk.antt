-- ===== src/Swan/Visitor/Walk.antt =====
-- The whole walk of the visitor: over the connections of every entry of a listing.
use ipman.Prelude.{
  String, ◌==◌, ◌≡◌, Bool, true, not, ◌||◌, ◌&&◌, List, [], ◌∷◌, has_key, IsMap, has_key-insert,
  has_key-lookup, any, eq_iff, arith, refl,
}
use ipman.Swan.Ast.{Conn, Entry}
use ipman.Swan.Visitor.{Visitor, has_child, check_conn, visit_conn, visit_conns, visit_entries}
use ipman.Swan.Names.{configured_in, named, lists_with, any_conn}
use ipman.Swan.Visitor.Refinement.{misses, SameConns-body, misses-body, IsMap-body}

-- The connection is listed as missing.
abbrev pub misses_conn : Visitor → String → Bool
misses_conn v c = has_key c v.missing_conns

-- What one step of the walk over connections does, for a list of connections.
pub record Walked (p : (Conn → Bool) → Bool) (c ch : String) (v w : Visitor) : Type 0 where
  pub sas : w.sas_children ≡ v.sas_children
  pub conns : misses_conn w c ≡ ((p (named c) && not (has_key c v.sas_children)) || misses_conn v c)
  pub children : misses w c ch ≡ (
      (p (lists_with configured_in c ch) && not (has_child v.sas_children c ch)) || misses v c ch)
  pub is_map : IsMap v.missing_children → IsMap w.missing_children

check_conn_lem :
    (conn c ch : String) (v : Visitor)
    → ((check_conn conn v).sas_children ≡ v.sas_children)
      × ((check_conn conn v).missing_children ≡ v.missing_children)
      × (misses_conn (check_conn conn v) c
          ≡ ((conn == c && not (has_key c v.sas_children)) || misses_conn v c))
unfolding check_conn
check_conn_lem conn c ch v = ground (
  arith,
  has_key-insert conn c true v.missing_conns,
  has_key-lookup conn v.sas_children,
  eq_iff conn c,
)

module _ (c ch : String) where
  visit_conn-Walked : (k : Conn) (v : Visitor) → Walked (λ p. p k) c ch v (visit_conn k v)
  unfolding visit_conn
  visit_conn-Walked k v = ground (
    arith,
    check_conn_lem k.name c ch v,
    SameConns-body k.name k.body (check_conn k.name v),
    misses-body k.name c ch k.body (check_conn k.name v),
    IsMap-body k.name k.body (check_conn k.name v),
  )

  visit_conns-Walked :
      (ks : List Conn) (v : Visitor) → Walked (λ p. any p ks) c ch v (visit_conns ks v)
  unfolding visit_conns any
  visit_conns-Walked [] v = record { sas = refl; conns = refl; children = refl; is_map = λ h. h }
  visit_conns-Walked (k ∷ ks) v =
      ground (arith, visit_conn-Walked k v, visit_conns-Walked ks (visit_conn k v))

  pub visit_entries-Walked :
      (es : List Entry) (v : Visitor) → Walked (λ p. any_conn p es) c ch v (visit_entries es v)
  unfolding visit_entries any
  visit_entries-Walked [] v = record { sas = refl; conns = refl; children = refl; is_map = λ h. h }
  visit_entries-Walked (e ∷ es) v =
      ground (arith, visit_conns-Walked e.conn v, visit_entries-Walked es (visit_conns e.conn v))
