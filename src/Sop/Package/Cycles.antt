-- ===== src/Sop/Package/Cycles.antt =====
-- crates/fd-sop/src/package.rs, `resolve_flow`: the search for dependency cycles, depth first with a
-- stack of its own. `none` is a panic, or a loop cut short by its fuel.
use flightdeck_os.Base.{
  ℕ, zero, suc, ◌+◌, Bool, true, false, Option, none, some, List, [], ◌∷◌, ◌++◌, Result, ok, err,
  length, get_elem?, ltb, ◌==◌, if◌then◌else◌, ◌>>=◌,
}
use flightdeck_os.Base.Texts.{String, str_eq}
use flightdeck_os.Sop.Engine.{StepDef}

-- The visit states 0, 1 and 2.
pub data Mark : Type 0 where
  unvisited visiting done : Mark

abbrev pub is_visiting : Mark → Bool
is_visiting Mark.visiting = true
is_visiting _ = false

abbrev pub is_unvisited : Mark → Bool
is_unvisited Mark.unvisited = true
is_unvisited _ = false

-- `v[i] = m`, for an index within bounds.
abbrev pub set : {A : Type 0} → List A → ℕ → A → List A
set [] i m = []
set (x ∷ xs) zero m = m ∷ xs
set (x ∷ xs) (suc i) m = x ∷ set xs i m

-- `Vec::pop`.
abbrev pub drop_last : {A : Type 0} → List A → List A
drop_last [] = []
drop_last (x ∷ []) = []
drop_last (x ∷ y ∷ xs) = x ∷ drop_last (y ∷ xs)

-- The marks, the path from the root, and the stack with its top first: each node with the number of
-- its dependencies that have been followed.
pub record Search : Type 0 where
  pub marks : List Mark
  pub stack_path : List ℕ
  pub stack : List (ℕ × ℕ)

module _ {F : Type 0} (steps : List (StepDef F)) where
  abbrev pub position : String → List (StepDef F) → Option ℕ
  position id [] = none
  position id (s ∷ ss) = if str_eq s.id id then some 0 else (do i ← position id ss; some (i + 1))

  abbrev pub index_of : String → Option ℕ
  index_of id = position id steps

  -- The identifiers from the first `node` of the path on, and the node's again.
  abbrev pub cycle_ids : List ℕ → ℕ → List String
  cycle_ids path node = ids (from_node path) ++ ids (node ∷ [])
    where
      id_at : Option (StepDef F) → List String
      id_at none = []
      id_at (some s) = s.id ∷ []

      ids : List ℕ → List String
      ids [] = []
      ids (n ∷ ns) = id_at (get_elem? steps n) ++ ids ns

      after : List ℕ → List ℕ
      after [] = path
      after (n ∷ ns) = if n == node then n ∷ ns else after ns

      from_node : List ℕ → List ℕ
      from_node p = after p

  -- A node is visited when its first dependency is due.
  abbrev pub enter : Search → ℕ → Search
  enter s node = record s {
    marks = set s.marks node Mark.visiting;
    stack_path = s.stack_path ++ (node ∷ []);
  }

  -- All dependencies of the node have been followed.
  abbrev pub leave : Search → ℕ → List (ℕ × ℕ) → Search
  leave s node rest = record {
    marks = set s.marks node Mark.done;
    stack_path = drop_last s.stack_path;
    stack = rest;
  }

  -- The dependency `dep`, the one numbered `i`, leads to the node `next`.
  abbrev pub follow : Search → ℕ → ℕ → List (ℕ × ℕ) → ℕ → Mark → Search
  follow s node i rest next mark = record s {
    stack = if is_unvisited mark then (next, 0) ∷ (node, i + 1) ∷ rest else (node, i + 1) ∷ rest;
  }

  -- What is left of an iteration once the node is marked.
  unfoldable pub proceed :
      Search → StepDef F → ℕ → ℕ → List (ℕ × ℕ) → Option (Result Search (List String))
  proceed s step node i rest =
      if ltb i (length step.depends_on)
      then (do
        dep ← get_elem? step.depends_on i
        next ← index_of dep
        mark ← get_elem? s.marks next
        some (
            if is_visiting mark
            then err (step.id ∷ dep ∷ [])
            else ok (follow s node i rest next mark)))
      else some (ok (leave s node rest))

  -- One iteration of the loop, for the top `(node, i)` of the stack.
  unfoldable pub visit : Search → ℕ → ℕ → List (ℕ × ℕ) → Option (Result Search (List String))
  visit s node i rest = do
    step ← get_elem? steps node
    mark ← get_elem? s.marks node
    (if i == 0
        then (if is_visiting mark
            then some (err (cycle_ids s.stack_path node))
            else proceed (enter s node) step node i rest)
        else proceed s step node i rest)

  abbrev pub Searched : Type 0
  Searched = Option (Result Search (List String))

  -- The rest of the loop, unless a cycle was found.
  abbrev pub continue_with : (Search → Searched) → Result Search (List String) → Searched
  continue_with again (ok s) = again s
  continue_with again (err ids) = some (err ids)

  abbrev pub turn : (Search → Searched) → Search → List (ℕ × ℕ) → Searched
  turn again s [] = some (ok s)
  turn again s ((node, i) ∷ rest) = do r ← visit s node i rest; continue_with again r

  -- The loop from one root, until the stack is empty.
  unfoldable pub explore : ℕ → Search → Searched
  explore zero s = none
  explore (suc fuel) s = turn (explore fuel) s s.stack

  -- An iteration for each dependency of each step, and one more for each step, are enough for all
  -- of the loop; the last one finds the stack empty.
  abbrev pub cost : List (StepDef F) → ℕ
  cost [] = 0
  cost (s ∷ ss) = length s.depends_on + 1 + cost ss

  abbrev pub begin : Search → ℕ → Mark → Searched
  begin s root mark =
      if is_unvisited mark
      then explore (cost steps + 1) (record s { stack = (root, 0) ∷ [] })
      else some (ok s)

  -- The roots from `root` on.
  unfoldable pub search_from : ℕ → ℕ → Search → Searched
  search_from root zero s = some (ok s)
  search_from root (suc count) s = do
    mark ← get_elem? s.marks root
    r ← begin s root mark
    continue_with (search_from (root + 1) count) r

  abbrev pub unmarked : {A : Type 0} → List A → List Mark
  unmarked [] = []
  unmarked (x ∷ xs) = Mark.unvisited ∷ unmarked xs

  unfoldable pub check_cycles : Searched
  check_cycles =
      search_from 0 (length steps) (record { marks = unmarked steps; stack_path = []; stack = [] })
