-- ===== src/Main/Routing.antt =====
-- Which handler the requests to main.cc meet.
use piconaut.Prelude.{
  ℕ, Str, bytes, true, false, some, [], ◌∷◌, insert, ◌≡◌, ◌≢◌, refl, arith, nat_eq, list_eq,
  list_beq, str_iff, ◌==◌, Bool-cases, inl, inr,
}
use piconaut.Routers.Node.{param_pattern}
use piconaut.Routers.Router.{braces, regex_match, match_parts, RouterMatchResult}
use piconaut.Main.Tree.{main_routes, main_tree}

-- A value of a parameter is not the common name of the parameters.
braces-ne-value : (q : Str) → regex_match q param_pattern ≡ true → (braces == q) ≡ false
unfolding regex_match list_beq
braces-ne-value q v = elim (Bool-cases (braces == q)) [
  | inl e ↦ cc (rw (← (str_iff braces q).0 e) at v)
  | inr e ↦ e
]

not_post : (q : Str) → bytes "post" ≢ q → (bytes "post" == q) ≡ false
not_post q ne = ground (arith, str_iff (bytes "post") q)

module _ {H : Type 0} (h : H) (k₁ k₂ k₃ k₄ k₅ : ℕ) where
  abbrev found : ℕ → RouterMatchResult H
  found k = record { executor = some (some h); key = some k }

  pub match_post :
      match_parts ([] ∷ bytes "post" ∷ []) [] (main_routes h k₁ k₂ k₃ k₄ k₅) ≡ (found k₁, [])
  unfolding match_parts list_beq
  match_post = rw main_tree refl

  pub match_id :
      (id : Str)
      → regex_match id param_pattern ≡ true
      → match_parts ([] ∷ bytes "post" ∷ id ∷ []) [] (main_routes h k₁ k₂ k₃ k₄ k₅)
        ≡ (found k₂, insert (bytes "id") id [])
  unfolding match_parts list_beq
  match_id id v = rw (main_tree, match_parts, braces-ne-value id v, v) refl

  pub match_slug :
      (id slug : Str)
      → regex_match id param_pattern ≡ true
      → regex_match slug param_pattern ≡ true
      → match_parts ([] ∷ bytes "post" ∷ id ∷ slug ∷ []) [] (main_routes h k₁ k₂ k₃ k₄ k₅)
        ≡ (found k₃, insert (bytes "slug") slug (insert (bytes "id") id []))
  unfolding match_parts list_beq
  match_slug id slug v w =
      rw (main_tree, match_parts, braces-ne-value id v, v, braces-ne-value slug w, w) refl

  pub match_month :
      (year month : Str)
      → bytes "post" ≢ year
      → regex_match year param_pattern ≡ true
      → regex_match month param_pattern ≡ true
      → match_parts ([] ∷ year ∷ month ∷ []) [] (main_routes h k₁ k₂ k₃ k₄ k₅)
        ≡ (found k₄, insert (bytes "month") month (insert (bytes "year") year []))
  unfolding match_parts list_beq
  match_month year month ne v w =
      rw
        (
          main_tree,
          match_parts,
          not_post year ne,
          braces-ne-value year v,
          v,
          braces-ne-value month w,
          w,
        )
        refl

  pub match_archive :
      (year month id slug : Str)
      → bytes "post" ≢ year
      → regex_match year param_pattern ≡ true
      → regex_match month param_pattern ≡ true
      → regex_match id param_pattern ≡ true
      → regex_match slug param_pattern ≡ true
      → match_parts
          ([] ∷ year ∷ month ∷ bytes "post" ∷ id ∷ slug ∷ [])
          []
          (main_routes h k₁ k₂ k₃ k₄ k₅)
        ≡ (
          found k₅,
          insert (bytes "slug") slug (
              insert
                (bytes "id")
                id
                (insert (bytes "month") month (insert (bytes "year") year []))),
        )
  unfolding match_parts list_beq
  match_archive year month id slug ne v w x y =
      rw
        (
          main_tree,
          match_parts,
          not_post year ne,
          braces-ne-value year v,
          v,
          braces-ne-value month w,
          w,
          braces-ne-value id x,
          x,
          braces-ne-value slug y,
          y,
        )
        refl
