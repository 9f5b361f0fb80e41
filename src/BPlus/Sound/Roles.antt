-- ===== src/BPlus/Sound/Roles.antt =====
-- How the lists of free positions and the map of the contents take a change of the ghost.
use godbee.Base.{ℕ, ◌<◌, ◌≡◌, ◌≢◌, refl, List, [], ◌∷◌, ◌⊎◌, inl, inr, arith, length}
use godbee.BPlus.Offsets.{MetaData, node_id}
use godbee.BPlus.Sound.{
  Ghost, ValueRole, no_value, free_value, held, free_node, FreeNodes, FreeValues,
}

pub value_role_cases : (r : ValueRole) → (r ≡ no_value) ⊎ (r ≢ no_value)
value_role_cases no_value = inl refl
value_role_cases (free_value n) = inr (λ e. cc)
value_role_cases (held k) = inr (λ e. cc)

module _ (md : MetaData) (g g' : Ghost) where
  pub FreeNodes-of_roles :
      (ids : List ℕ)
      → ((p n : ℕ) → n < length ids → g.role p ≡ free_node n → g'.role p ≡ free_node n)
      → FreeNodes md g ids
      → FreeNodes md g' ids
  FreeNodes-of_roles [] same h = tt
  FreeNodes-of_roles (id ∷ ids) same h = (
    h.0,
    same (node_id md id) (length ids) (omega arith) h.1,
    FreeNodes-of_roles ids (λ p n lt e. same p n (omega arith) e) h.2,
  )

  pub FreeValues-of_roles :
      (ids : List ℕ)
      → ((id n : ℕ)
          → n < length ids
          → g.value_role id ≡ free_value n
          → g'.value_role id ≡ free_value n)
      → FreeValues md g ids
      → FreeValues md g' ids
  FreeValues-of_roles [] same h = tt
  FreeValues-of_roles (id ∷ ids) same h = (
    same id (length ids) (omega arith) h.0,
    FreeValues-of_roles ids (λ p n lt e. same p n (omega arith) e) h.1,
  )
