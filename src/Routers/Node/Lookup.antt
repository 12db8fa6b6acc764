-- ===== src/Routers/Node/Lookup.antt =====
-- The children of a node of src/piconaut/routers/router_node.h, as a map.
use piconaut.Prelude.{Str, some, ◌≡◌, refl, arith, list_eq, nat_eq, str_iff, ◌==◌, if◌then◌else◌}
use piconaut.Routers.Node.{RouterNode, Children, nil, child, find_child, put_child}

pub find_child-put_child :
    {H : Type 0} (name other : Str) (n : RouterNode H) (c : Children H)
    → find_child other (put_child name n c) ≡ (if name == other then some n else find_child other c)
unfolding find_child put_child
find_child-put_child name other n nil = refl
find_child-put_child name other n (child x m c) = ground (
  arith,
  str_iff name other,
  str_iff x name,
  str_iff x other,
  find_child-put_child name other n c,
)
