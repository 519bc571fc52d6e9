-- ===== src/Swan/Names.antt =====
-- What a listing declares, read off the tree with no visitor and no map: the names that the walks
-- of `Collector` and `Visitor` are measured against.
use ipman.Prelude.{
  String, ◌==◌, Bool, ◌&&◌, List, [], ◌∷◌, ◌++◌, Option, none, some, contains, any, if◌then◌else◌,
}
use ipman.Swan.Ast.{Entity, option, block, Entities, nil, cons, Conn, Entry, SwanAst}
use ipman.Swan.Collector.{sa_name}

abbrev pub as_list {ℓ} : {A : Type ℓ} → Option A → List A
as_list none = []
as_list (some a) = a ∷ []

-- The names of the security associations of a `child-sas` block.
unfoldable pub sa_names : Entities → List String
sa_names nil = []
sa_names (cons (option key v) es) = sa_names es
sa_names (cons (block name body) es) = as_list (sa_name body) ++ sa_names es

-- The names of the blocks of a `children` block.
unfoldable pub block_names : Entities → List String
block_names nil = []
block_names (cons (option key v) es) = block_names es
block_names (cons (block name body) es) = name ∷ block_names es

unfoldable pub own_names : String → Entities → List String
unfolding sa_names block_names
own_names name body =
    if name == "child-sas"
    then sa_names body
    else if name == "children"
    then block_names body
    else []

unfoldable mutual
  unfolding own_names

  pub up_in_entity : Entity → List String
  up_in_entity (option key v) = []
  up_in_entity (block name body) = own_names name body ++ up_in body

  -- The children of a connection that a listing of associations names, at any depth.
  pub up_in : Entities → List String
  up_in nil = []
  up_in (cons e es) = up_in_entity e ++ up_in es

unfoldable mutual
  unfolding block_names

  pub configured_in_entity : Entity → List String
  configured_in_entity (option key v) = []
  configured_in_entity (block name body) =
      (if name == "children" then block_names body else []) ++ configured_in body

  -- The children of a connection that a listing of connections names, at any depth.
  pub configured_in : Entities → List String
  configured_in nil = []
  configured_in (cons e es) = configured_in_entity e ++ configured_in es

abbrev pub named : String → Conn → Bool
named conn c = c.name == conn

abbrev pub lists_with : (Entities → List String) → String → String → Conn → Bool
lists_with names conn child c = c.name == conn && contains (names c.body) child

abbrev pub any_conn : (Conn → Bool) → List Entry → Bool
any_conn p es = any (λ (e : Entry). any p e.conn) es

-- The listing has a connection of this name.
abbrev pub declares : SwanAst → String → Bool
declares ast conn = any_conn (named conn) ast.entry

-- The listing of associations has this child under this connection.
abbrev pub is_up : SwanAst → String → String → Bool
is_up sas conn child = any_conn (lists_with up_in conn child) sas.entry

-- The listing of connections has this child under this connection.
abbrev pub is_configured : SwanAst → String → String → Bool
is_configured conns conn child = any_conn (lists_with configured_in conn child) conns.entry
