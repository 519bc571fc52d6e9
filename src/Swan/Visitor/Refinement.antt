-- ===== src/Swan/Visitor/Refinement.antt =====
-- What the visitor finds missing is what is configured and has no security association.
use ipman.Prelude.{
  String, ◌==◌, ◌≡◌, Bool, not, ◌||◌, ◌&&◌, [], ◌∷◌, ◌++◌, lookup, get_or, lookup-insert, IsMap,
  insert-IsMap, contains, contains-append, eq_iff, arith, refl,
}
use ipman.Swan.Ast.{Entity, option, block, Entities, nil, cons}
use ipman.Swan.Visitor.{
  Visitor, has_child, check_child, check_children, visit_entity, visit_entities,
}
use ipman.Swan.Names.{block_names, configured_in, configured_in_entity}

-- The child is listed as missing under the connection.
abbrev pub misses : Visitor → String → String → Bool
misses v c ch = contains (get_or [] (lookup c v.missing_children)) ch

-- The body of a connection leaves the missing connections and the collected map alone.
abbrev pub SameConns : Visitor → Visitor → Type 0
SameConns v w = (w.sas_children ≡ v.sas_children) × (w.missing_conns ≡ v.missing_conns)

sas_children-check_child :
    (conn name : String) (v : Visitor) → (check_child conn name v).sas_children ≡ v.sas_children
unfolding check_child
sas_children-check_child conn name v = ground arith

SameConns-check_children :
    (conn : String) (es : Entities) (v : Visitor) → SameConns v (check_children conn es v)
unfolding check_children
SameConns-check_children conn nil v = (refl, refl)
SameConns-check_children conn (cons (option key x) es) v = SameConns-check_children conn es v
SameConns-check_children conn (cons (block name body) es) v =
    ground (arith, SameConns-check_children conn es (check_child conn name v))

mutual
  unfolding visit_entity

  SameConns-visit_entity :
      (conn : String) (e : Entity) (v : Visitor) → SameConns v (visit_entity conn e v)
  SameConns-visit_entity conn (option key x) v = (refl, refl)
  SameConns-visit_entity conn (block name body) v = ground (
    arith,
    SameConns-visit_entities conn body v,
    SameConns-visit_entities conn body (check_children conn body v),
    SameConns-check_children conn body v,
  )

  SameConns-visit_entities :
      (conn : String) (es : Entities) (v : Visitor) → SameConns v (visit_entities conn es v)
  SameConns-visit_entities conn nil v = (refl, refl)
  SameConns-visit_entities conn (cons e es) v = ground (
    arith,
    SameConns-visit_entities conn es (visit_entity conn e v),
    SameConns-visit_entity conn e v,
  )

pub SameConns-body :
    (conn : String) (es : Entities) (v : Visitor) → SameConns v (visit_entities conn es v)
SameConns-body = SameConns-visit_entities

module _ (conn c ch : String) where
  misses-check_child :
      (name : String) (v : Visitor)
      → misses (check_child conn name v) c ch
        ≡ ((conn == c && name == ch && not (has_child v.sas_children c ch)) || misses v c ch)
  unfolding check_child contains
  misses-check_child name v = ground (
    arith,
    eq_iff conn c,
    eq_iff name ch,
    lookup-insert conn c (get_or [] (lookup conn v.missing_children) ++ name ∷ [])
        v.missing_children,
    contains-append (get_or [] (lookup conn v.missing_children)) (name ∷ []) ch,
  )

  misses-check_children :
      (es : Entities) (v : Visitor)
      → misses (check_children conn es v) c ch ≡ (
          (conn == c && contains (block_names es) ch && not (has_child v.sas_children c ch))
          || misses v c ch)
  unfolding check_children block_names contains
  misses-check_children nil v = ground arith
  misses-check_children (cons (option key x) es) v = misses-check_children es v
  misses-check_children (cons (block name body) es) v = ground (
    arith,
    misses-check_children es (check_child conn name v),
    misses-check_child name v,
    sas_children-check_child conn name v,
  )

  mutual
    unfolding visit_entity configured_in_entity contains

    misses-visit_entity :
        (e : Entity) (v : Visitor)
        → misses (visit_entity conn e v) c ch ≡ (
            (conn == c
              && contains (configured_in_entity e) ch
              && not (has_child v.sas_children c ch))
            || misses v c ch)
    misses-visit_entity (option key x) v = ground arith
    misses-visit_entity (block name body) v = ground (
      arith,
      misses-visit_entities body v,
      misses-visit_entities body (check_children conn body v),
      misses-check_children body v,
      SameConns-check_children conn body v,
      contains-append (block_names body) (configured_in body) ch,
    )

    misses-visit_entities :
        (es : Entities) (v : Visitor)
        → misses (visit_entities conn es v) c ch ≡ (
            (conn == c && contains (configured_in es) ch && not (has_child v.sas_children c ch))
            || misses v c ch)
    misses-visit_entities nil v = ground arith
    misses-visit_entities (cons e es) v = ground (
      arith,
      misses-visit_entities es (visit_entity conn e v),
      misses-visit_entity e v,
      SameConns-visit_entity conn e v,
      contains-append (configured_in_entity e) (configured_in es) ch,
    )

  pub misses-body :
      (es : Entities) (v : Visitor)
      → misses (visit_entities conn es v) c ch ≡ (
          (conn == c && contains (configured_in es) ch && not (has_child v.sas_children c ch))
          || misses v c ch)
  misses-body = misses-visit_entities

IsMap-check_child :
    (conn name : String) (v : Visitor)
    → IsMap v.missing_children
    → IsMap (check_child conn name v).missing_children
unfolding check_child
IsMap-check_child conn name v h = ground (
  arith,
  insert-IsMap conn (get_or [] (lookup conn v.missing_children) ++ name ∷ []) v.missing_children,
)

IsMap-check_children :
    (conn : String) (es : Entities) (v : Visitor)
    → IsMap v.missing_children
    → IsMap (check_children conn es v).missing_children
unfolding check_children
IsMap-check_children conn nil v h = h
IsMap-check_children conn (cons (option key x) es) v h = IsMap-check_children conn es v h
IsMap-check_children conn (cons (block name body) es) v h =
    IsMap-check_children conn es (check_child conn name v) (IsMap-check_child conn name v h)

mutual
  unfolding visit_entity

  IsMap-visit_entity :
      (conn : String) (e : Entity) (v : Visitor)
      → IsMap v.missing_children
      → IsMap (visit_entity conn e v).missing_children
  IsMap-visit_entity conn (option key x) v h = h
  IsMap-visit_entity conn (block name body) v h = ground (
    arith,
    IsMap-visit_entities conn body v,
    IsMap-visit_entities conn body (check_children conn body v),
    IsMap-check_children conn body v,
  )

  IsMap-visit_entities :
      (conn : String) (es : Entities) (v : Visitor)
      → IsMap v.missing_children
      → IsMap (visit_entities conn es v).missing_children
  IsMap-visit_entities conn nil v h = h
  IsMap-visit_entities conn (cons e es) v h =
      IsMap-visit_entities conn es (visit_entity conn e v) (IsMap-visit_entity conn e v h)

pub IsMap-body :
    (conn : String) (es : Entities) (v : Visitor)
    → IsMap v.missing_children
    → IsMap (visit_entities conn es v).missing_children
IsMap-body = IsMap-visit_entities
