-- ===== src/Samples.antt =====
-- Concrete inputs of src/watch.rs, src/search.rs and src/server.rs.
pub mod Watcher
pub mod Searcher
pub mod Queries
pub mod Passes
pub mod Service
pub mod Requests
pub mod Tables
use macevery.Prelude.{ℕ, [], ◌∷◌}
use macevery.Search.Text.{Bytes}

-- /r
abbrev pub root : Bytes
root = b'/' ∷ b'r' ∷ []

-- /r/a
abbrev pub child : Bytes
child = b'/' ∷ b'r' ∷ b'/' ∷ b'a' ∷ []

-- /r/a/b
abbrev pub grandchild : Bytes
grandchild = b'/' ∷ b'r' ∷ b'/' ∷ b'a' ∷ b'/' ∷ b'b' ∷ []
