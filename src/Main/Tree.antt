-- ===== src/Main/Tree.antt =====
-- The route tree of the five paths of main.cc.
use piconaut.Prelude.{ℕ, Str, bytes, Option, none, some, [], ◌≡◌, refl, nat_eq, list_eq, list_beq}
use piconaut.Utils.Strings.Split.{split}
use piconaut.Routers.Node.{
  RouterNode, node, Children, nil, child, static, parameter, unset, param_pattern, new_node,
}
use piconaut.Routers.Router.{braces, add_parts}
use piconaut.Main.{post_path, id_path, slug_path, month_path, archive_path}

module _ {H : Type 0} (h : H) (k₁ k₂ k₃ k₄ k₅ : ℕ) where
  -- The five routes in their order.
  abbrev pub main_routes : RouterNode H
  main_routes = add_parts (split b'/' archive_path) k₅ h (
      add_parts (split b'/' month_path) k₄ h (
        add_parts (split b'/' slug_path) k₃ h
          (add_parts (split b'/' id_path) k₂ h (add_parts (split b'/' post_path) k₁ h new_node))))

  -- A parameter of that name.
  abbrev param : Str → Children H → Option H → ℕ → RouterNode H
  param name c h' k = node c h' parameter name param_pattern k

  abbrev literal : Children H → Option H → ℕ → RouterNode H
  literal c h' k = node c h' static [] unset k

  abbrev pub post_node : RouterNode H
  post_node =
      literal
        (child braces
          (param (bytes "id") (child braces (param (bytes "slug") nil (some h) k₃) nil) (some h) k₂)
          nil)
        (some h) k₁

  abbrev pub archive_node : RouterNode H
  archive_node =
      literal
        (child braces
          (param (bytes "id") (child braces (param (bytes "slug") nil (some h) k₅) nil) none 0) nil)
        none 0

  abbrev pub year_node : RouterNode H
  year_node =
      param (bytes "year")
        (child braces (param (bytes "month") (child (bytes "post") archive_node nil) (some h) k₄)
          nil)
        none 0

  abbrev pub top_node : RouterNode H
  top_node = literal (child (bytes "post") post_node (child braces year_node nil)) none 0

  pub main_tree : main_routes ≡ literal (child [] top_node nil) none 0
  unfolding split add_parts list_beq
  main_tree = refl
