-- ===== src/SignalOpt/Groups.antt =====
-- signal_opt_service.cpp, populate_movement_groups and remove_signal_groups: the movement groups that a
-- controller configuration allows, without the signal groups that are to be ignored.
use carma_streets.Base.{
  ℕ, ◌==◌, List, [], ◌∷◌, ◌++◌, Bool, true, false, ◌&&◌, ◌||◌, not, if◌then◌else◌, Option, none,
  some,
}
use carma_streets.Plan.{SignalGroupConfiguration, TscConfiguration, is_empty}
use carma_streets.SignalOpt.{MovementGroup}
pub mod Covered
pub mod Removed

abbrev pub new_group : ℕ → ℕ → MovementGroup
new_group first second = record { name = ""; first = first; second = second }

-- The pair is there in reverse.
unfoldable pub already_added : List MovementGroup → ℕ → ℕ → Bool
already_added [] first second = false
already_added (g ∷ gs) first second =
    (g.second == first && g.first == second) || already_added gs first second

unfoldable pub add_concurrent : ℕ → List ℕ → List MovementGroup → List MovementGroup
add_concurrent first [] groups = groups
add_concurrent first (second ∷ rest) groups =
    add_concurrent first rest
      (if already_added groups first second then groups else groups ++ new_group first second ∷ [])

unfoldable pub add_configured : TscConfiguration → List MovementGroup → List MovementGroup
add_configured [] groups = groups
add_configured (c ∷ cs) groups = add_configured cs (
    if is_empty c.concurrent_signal_groups
    then groups ++ new_group c.signal_group_id 0 ∷ []
    else add_concurrent c.signal_group_id c.concurrent_signal_groups groups)

unfoldable pub remove_signal_group : ℕ → List MovementGroup → List MovementGroup
remove_signal_group ignore [] = []
remove_signal_group ignore (g ∷ gs) =
    let rest = remove_signal_group ignore gs in
    if g.first == ignore && g.second == 0
    then rest
    else if not (g.first == 0) && g.second == ignore
    then record g { second = 0 } ∷ rest
    else if g.first == ignore && not (g.second == 0)
    then record g { first = g.second; second = 0 } ∷ rest
    else g ∷ rest

unfoldable pub remove_signal_groups : List ℕ → List MovementGroup → List MovementGroup
remove_signal_groups [] groups = groups
remove_signal_groups (ignore ∷ rest) groups =
    remove_signal_groups rest (remove_signal_group ignore groups)

-- `ignored` is the member ignore_signal_groups.
unfoldable pub populate_movement_groups :
    List ℕ → Option TscConfiguration → List MovementGroup → List MovementGroup
populate_movement_groups ignored none groups = groups
populate_movement_groups ignored (some config) groups =
    remove_signal_groups ignored (add_configured config groups)
