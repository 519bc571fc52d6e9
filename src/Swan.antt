-- ===== src/Swan.antt =====
-- What strongSwan reports about itself: pkg/swanparse/parse.go (the syntax tree),
-- pkg/swanparse/visitor.go and cmd/restctl/visitor.go (the walks over it) and `checkStatus` of
-- cmd/restctl/main.go, with the restart handlers of that file.
pub mod Ast
pub mod Names
pub mod Collector
pub mod Visitor
pub mod Status
pub mod Restart
