-- ===== src/Vfs/Node/Tests.antt =====
-- A table of two nodes, the second in use.
use open_asd.Prelude.{ℕ, none, [], ◌∷◌}
use open_asd.Vfs.Node.{Node, Vfs, empty_node}

abbrev used_node : Node ℕ ℕ
used_node = record empty_node { node_id = 1; refcount = 1 }

abbrev two : Vfs ℕ ℕ
two = record {
  nodes = empty_node ∷ used_node ∷ empty_node ∷ [];
  backends = [];
  next_node_id = 1;
  fd_tables = λ p. [];
  current = none;
  rings = [];
  world = 0;
}
