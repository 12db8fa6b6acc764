-- ===== src/Main/Dispatch.antt =====
-- The requests to main.cc, from their path to the handler.
use piconaut.Prelude.{
  ℕ, ◌≤◌, Str, true, Option, none, some, [], ◌∷◌, List, All, emplace, length, ◌≡◌, ◌≢◌, refl, ap,
  ◌∙◌, arith, nat_eq, list_eq,
}
use piconaut.Errors.{Error}
use piconaut.Utils.Strings.{npos}
use piconaut.Utils.Strings.Split.{split}
use piconaut.Routers.Pattern.{is_valid_route, route_char}
use piconaut.Routers.Router.{add_parts}
use piconaut.Http.SingleServer.{H2oServer, register_handler}
use piconaut.Handlers.Dispatcher.{
  make_route, GlobalDispatcherHandler, dispatcher_fn, new_dispatcher,
}
use piconaut.Handlers.Dispatcher.Dispatching.{register_valid}
use piconaut.Main.{
  post_path, id_path, slug_path, month_path, archive_path, register_each, unless_thrown,
  route_table,
}

abbrev pub AreDistinct : List ℕ → Type 0
AreDistinct [] = Unit
AreDistinct (k ∷ ks) = All (λ j. k ≢ j) ks × AreDistinct ks

abbrev pub main_paths : List Str
main_paths = post_path ∷ id_path ∷ slug_path ∷ month_path ∷ archive_path ∷ []

abbrev IsGood : Str → Type 0
IsGood path = (is_valid_route path ≡ true) × (length path ≤ npos)

main_paths-All : All IsGood main_paths
unfolding is_valid_route route_char
main_paths-All = (
  (refl, omega arith),
  ((refl, omega arith), ((refl, omega arith), ((refl, omega arith), ((refl, omega arith), tt)))),
)

module _ {Hd : Type 0} (hasher : Str → ℕ) where
  abbrev register_one : Str → Hd → GlobalDispatcherHandler Hd → GlobalDispatcherHandler Hd
  register_one path h d = record {
    router = record {
      root = add_parts (split b'/' path) (hasher path) dispatcher_fn d.router.root;
    };
    routes = emplace (hasher path) (make_route (hasher path) path (some h)) d.routes;
  }

  abbrev register_all : List (Str × Hd) → GlobalDispatcherHandler Hd → GlobalDispatcherHandler Hd
  register_all [] d = d
  register_all ((path, h) ∷ rest) d = register_all rest (register_one path h d)

  -- Over paths that are valid no call of `RegisterHandler` throws.
  register_each_lem :
      (table : List (Str × Hd)) (s : H2oServer Hd)
      → All (λ (x : Str × Hd). IsGood x.0) table
      → register_each hasher table s ≡ (record s { routers = register_all table s.routers }, none)
  unfolding register_each register_handler
  register_each_lem [] s good = refl
  register_each_lem ((path, h) ∷ rest) s ((valid, fits), good) =
      ap
        (λ (x : GlobalDispatcherHandler Hd × Option Error).
          unless_thrown (register_each hasher rest) (record s { routers = x.0 }, x.1))
        (register_valid hasher path (some h) s.routers valid fits)
      ∙ register_each_lem rest (record s { routers = register_one path h s.routers }) good

  abbrev pub main_dispatcher : Hd → Hd → Hd → GlobalDispatcherHandler Hd
  main_dispatcher h1 h2 h3 = register_all (route_table h1 h2 h3) new_dispatcher

  pub register_each_main :
      (h1 h2 h3 : Hd) (s : H2oServer Hd)
      → s.routers ≡ new_dispatcher
      → register_each hasher (route_table h1 h2 h3) s
        ≡ (record s { routers = main_dispatcher h1 h2 h3 }, none)
  register_each_main h1 h2 h3 s e =
      register_each_lem (route_table h1 h2 h3) s main_paths-All
      ∙ ap
          (λ (d : GlobalDispatcherHandler Hd).
            (record s { routers = register_all (route_table h1 h2 h3) d }, none))
          e
