-- ===== src/Spat/Intersection/Store.antt =====
-- Finding a movement and writing it back.
use carma_streets.Base.{ℕ, ◌≡◌, ◌≢◌, refl, List, [], ◌∷◌, map, some, arith}
use carma_streets.Spat.Movement.{MovementState}
use carma_streets.Spat.Intersection.{find_movement, replace_movement}

abbrev pub groups : List MovementState → List ℕ
groups = map (λ m. m.signal_group)

pub find_movement-signal_group :
    (sg : ℕ) (ms : List MovementState) (m : MovementState)
    → find_movement sg ms ≡ some m
    → m.signal_group ≡ sg
unfolding find_movement
find_movement-signal_group sg [] m h = cc
find_movement-signal_group sg (x ∷ ms) m h = ground (arith, find_movement-signal_group sg ms m)

pub find_movement-replace_self :
    (sg : ℕ) (ms : List MovementState) (m new : MovementState)
    → find_movement sg ms ≡ some m
    → new.signal_group ≡ sg
    → find_movement sg (replace_movement sg new ms) ≡ some new
unfolding find_movement replace_movement
find_movement-replace_self sg [] m new h e = cc
find_movement-replace_self sg (x ∷ ms) m new h e =
    ground (arith, find_movement-replace_self sg ms m new)

pub find_movement-replace_ne :
    (sg other : ℕ) (ms : List MovementState) (new : MovementState)
    → new.signal_group ≡ sg
    → other ≢ sg
    → find_movement other (replace_movement sg new ms) ≡ find_movement other ms
unfolding find_movement replace_movement
find_movement-replace_ne sg other [] new e h = refl
find_movement-replace_ne sg other (x ∷ ms) new e h =
    ground (arith, find_movement-replace_ne sg other ms new)

pub groups-replace_movement :
    (sg : ℕ) (ms : List MovementState) (new : MovementState)
    → new.signal_group ≡ sg
    → groups (replace_movement sg new ms) ≡ groups ms
unfolding replace_movement
groups-replace_movement sg [] new e = refl
groups-replace_movement sg (x ∷ ms) new e = ground (arith, groups-replace_movement sg ms new)
