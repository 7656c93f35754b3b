-- ===== src/Optimization/Grid.antt =====
-- Grid search (src/neuroforge/optimization/grid_search.py; the grid of search_space.py). A search space
-- is the names of its parameters with the grid values of each. The lazy walk over the grid is the list
-- of the points that are left.
use neuro_forge.Base.{
  ℕ, zero, suc, ◌+◌, ◌*◌, ◌≡◌, refl, ap, ◌∙◌, String, Option, none, some, List, [], ◌∷◌, ◌++◌, map,
  length, take, drop, length-take, length-append, length-map, leb, arith, if◌then◌else◌,
}
use neuro_forge.Genomes.Schema.{Fields}
use neuro_forge.Optimization.Strategy.{Observation, SearchStrategy, StrategyLaws}

abbrev pub GridSpace : Type 0 → Type 0
GridSpace V = List (String × List V)

pub record GridState (F V : Type 0) : Type 0 where
  pub total : ℕ
  pub points : List (Fields V)
  pub cursor : ℕ
  pub history : List F

module _ {V : Type 0} where
  unfoldable pub grid_size : GridSpace V → ℕ
  grid_size [] = 1
  grid_size ((name, vs) ∷ space) = length vs * grid_size space

  unfoldable pub with_values : String → List V → List (Fields V) → List (Fields V)
  with_values name [] combos = []
  with_values name (v ∷ vs) combos =
      map (λ combo. (name, v) ∷ combo) combos ++ with_values name vs combos

  -- `itertools.product`: the last parameter varies fastest.
  unfoldable pub iter_grid : GridSpace V → List (Fields V)
  iter_grid [] = [] ∷ []
  iter_grid ((name, vs) ∷ space) = with_values name vs (iter_grid space)

  length-with_values :
      (name : String) (vs : List V) (combos : List (Fields V))
      → length (with_values name vs combos) ≡ length vs * length combos
  unfolding with_values
  length-with_values name [] combos = omega arith
  length-with_values name (v ∷ vs) combos = omega (
    arith,
    length-append (map (λ combo. (name, v) ∷ combo) combos) (with_values name vs combos),
    length-map combos (λ combo. (name, v) ∷ combo),
    length-with_values name vs combos,
  )

  -- The walk over the grid has as many points as `grid_size` says without walking it.
  pub length-iter_grid : (space : GridSpace V) → length (iter_grid space) ≡ grid_size space
  unfolding iter_grid grid_size
  length-iter_grid [] = refl
  length-iter_grid ((name, vs) ∷ space) =
      length-with_values name vs (iter_grid space)
      ∙ ap (λ n. length vs * n) (length-iter_grid space)

  take-length-take : (n : ℕ) (xs : List (Fields V)) → take (length (take n xs)) xs ≡ take n xs
  take-length-take zero xs = refl
  take-length-take (suc n) [] = refl
  take-length-take (suc n) (x ∷ xs) = ap (λ ys. x ∷ ys) (take-length-take n xs)

  drop-length-take : (n : ℕ) (xs : List (Fields V)) → drop (length (take n xs)) xs ≡ drop n xs
  drop-length-take zero xs = refl
  drop-length-take (suc n) [] = refl
  drop-length-take (suc n) (x ∷ xs) = drop-length-take n xs

module _ {F V : Type 0} where
  unfoldable pub grid_ask : GridState F V → ℕ → GridState F V × List (Fields V)
  grid_ask g n =
      let batch = take n g.points in
      (record g { points = drop n g.points; cursor = g.cursor + length batch }, batch)

  unfoldable pub grid_tell : GridState F V → List (Observation F V) → GridState F V
  grid_tell g observations = record g { history = g.history ++ map (λ o. o.fitness) observations }

  unfoldable pub grid_convergence : GridState F V → Option String
  grid_convergence g = if leb g.total g.cursor then some "search space exhausted" else none

  -- The strategy over a space; `replay_ask` is the default, which calls `ask`.
  unfoldable pub grid_search : GridSpace V → SearchStrategy F V
  grid_search space = record {
    State = GridState F V;
    start = record { total = grid_size space; points = iter_grid space; cursor = 0; history = [] };
    ask = grid_ask;
    replay_ask = λ g n. (grid_ask g n).0;
    tell = grid_tell;
    convergence = grid_convergence;
  }

  -- Grid search keeps the contract of a strategy.
  pub grid_search-StrategyLaws : (space : GridSpace V) → StrategyLaws (grid_search space)
  unfolding grid_search grid_ask
  grid_search-StrategyLaws space = record {
    ask_bound = λ g n. omega (arith, length-take n g.points);
    ask_replay =
        λ g n. ap2 g (drop-length-take n g.points) (ap length (take-length-take n g.points));
  }
    where
      ap2 :
          (g : GridState F V) {xs ys : List (Fields V)} {m n : ℕ}
          → xs ≡ ys
          → m ≡ n
          → Path
              (GridState F V)
              (record g { points = xs; cursor = g.cursor + m })
              (record g { points = ys; cursor = g.cursor + n })
      ap2 g p q = cc
