-- ===== src/Routers/Router/Printing.antt =====
-- `PrintRouterTree` of src/piconaut/routers/router.cc and `PrintNode` of
-- src/piconaut/routers/router_node.h, as the text that they print. The children come in the order of
-- the model; that of the program's map is not documented.
use piconaut.Prelude.{Str, bytes, [], ◌∷◌, ◌++◌, if◌then◌else◌}
use piconaut.Routers.Node.{RouterNode, node, Children, nil, child, type, param_name}
use piconaut.Routers.Router.{Router, is_static}

-- `std::endl`
abbrev new_line : Str
new_line = 10 ∷ []

-- ` (param: …)` behind the name of a parameter
abbrev shown_param : {H : Type 0} → RouterNode H → Str
shown_param n = if is_static (type n) then [] else bytes " (param: " ++ param_name n ++ bytes ")"

unfoldable mutual
  pub print_node : {H : Type 0} → Str → RouterNode H → Str
  print_node prefix (node c h t p r k) = print_children prefix c

  pub print_children : {H : Type 0} → Str → Children H → Str
  print_children prefix nil = []
  print_children prefix (child name n c) =
      prefix
      ++ name
      ++ shown_param n
      ++ new_line
      ++ print_node (prefix ++ bytes "  ") n
      ++ print_children prefix c

unfoldable pub print_router_tree : {H : Type 0} → Router H → Str
print_router_tree router =
    bytes "Router Tree" ++ new_line ++ new_line ++ bytes "Route Root:" ++ print_node [] router.root
