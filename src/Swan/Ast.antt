-- ===== src/Swan/Ast.antt =====
-- pkg/swanparse/parse.go: the tree that the parser builds, and the names that one listing declares.
-- The grammar gives every `Entity` exactly one of its two pointers and every `Value` exactly one
-- of its two fields.
use ipman.Prelude.{String, List, [], ◌∷◌, ◌++◌}

mutual
  pub data Value : Type 0 where
    array : Values → Value
    single : String → Value

  pub data Values : Type 0 where
    no_value : Values
    and_value : Value → Values → Values

mutual
  pub data Entity : Type 0 where
    option : String → Value → Entity
    block : String → Entities → Entity

  pub data Entities : Type 0 where
    nil : Entities
    cons : Entity → Entities → Entities

pub record Conn : Type 0 where
  pub name : String
  pub body : Entities

pub record Entry : Type 0 where
  pub command : String
  pub name : String
  pub conn : List Conn

pub record SwanAst : Type 0 where
  pub entry : List Entry

-- All connections of the listing, in order.
unfoldable pub conns_of : List Entry → List Conn
conns_of [] = []
conns_of (e ∷ es) = e.conn ++ conns_of es
