-- ===== src/Scheduler/AllStop/Conflicts.antt =====
-- all_stop_vehicle_scheduler.cpp, get_latest_conflicting: what the latest conflicting vehicle says of all.
use mathlib.Core.List.{append_assoc, append-nil}
use carma_streets.Base.{
  ℕ, ◌≤◌, ◌≡◌, refl, ◌⊎◌, inl, inr, ltb, List, [], ◌∷◌, ◌++◌, All, All-map, false, elem, Option,
  none, some, Option-cases, Bool-cases, ok, err, arith, no_link_lane,
}
use carma_streets.Vehicles.{Vehicle}
use carma_streets.Scheduler.{LaneletInfo, IntersectionInfo, lanelet_from, get_link_lanelet_info}
use carma_streets.Scheduler.AllStop.{AllStopSchedule, latest_from, get_latest_conflicting}

-- Not before the vehicle found so far.
abbrev Reaches : Option AllStopSchedule → ℕ → Type 0
Reaches none time = Unit
Reaches (some c) time = c.dt ≤ time

module _ {F : Type 0} where
  -- Departed by the time, or on a link that does not conflict.
  abbrev pub ClearOf : LaneletInfo F → List AllStopSchedule → ℕ → Type 0
  ClearOf link before time =
      All (λ t. (elem t.link_id link.conflict_lanelet_ids ≡ false) ⊎ (t.dt ≤ time)) before

  abbrev pub NoConflict : LaneletInfo F → List AllStopSchedule → Type 0
  NoConflict link before = All (λ t. elem t.link_id link.conflict_lanelet_ids ≡ false) before

  -- Nobody enters before the conflicting vehicles that are scheduled before have departed, or gets
  -- access with one of them scheduled before.
  abbrev pub Clear : IntersectionInfo F → List AllStopSchedule → List AllStopSchedule → Type 0
  Clear info before [] = Unit
  Clear info before (s ∷ ss) =
      ((link : LaneletInfo F) × (lanelet_from none s.link_id info.link_lanelets ≡ some link)
        × ClearOf link before s.et
        × ((s.access ≡ false) ⊎ NoConflict link before))
      × Clear info (before ++ s ∷ []) ss

  pub Clear-append :
      (info : IntersectionInfo F) (before xs ys : List AllStopSchedule)
      → Clear info before xs
      → Clear info (before ++ xs) ys
      → Clear info before (xs ++ ys)
  Clear-append info before [] ys h k = rw (append-nil before) at k
  Clear-append info before (x ∷ xs) ys h k =
      (h.0, Clear-append info (before ++ x ∷ []) xs ys h.1 (rw (append_assoc before (x ∷ []) xs) k))

  pub ClearOf-later :
      (link : LaneletInfo F) (before : List AllStopSchedule) (t u : ℕ)
      → t ≤ u
      → ClearOf link before t
      → ClearOf link before u
  ClearOf-later link before t u h k =
      All-map (λ s. (elem s.link_id link.conflict_lanelet_ids ≡ false) ⊎ (s.dt ≤ t))
        (λ s. (elem s.link_id link.conflict_lanelet_ids ≡ false) ⊎ (s.dt ≤ u))
        (λ s c. elim c [ inl apart ↦ inl apart | inr gone ↦ inr (omega arith) ]) before k

  latest_from-some :
      (link : LaneletInfo F) (found : Option AllStopSchedule) (ss : List AllStopSchedule)
      (c : AllStopSchedule)
      → latest_from link found ss ≡ some c
      → Reaches found c.dt × ClearOf link ss c.dt
  unfolding latest_from
  latest_from-some link none [] c h = cc
  latest_from-some link (some f) [] c h = let eq : f ≡ c = cc h in rw eq (omega arith, tt)
  latest_from-some link none (s ∷ ss) c h =
      elim (Bool-cases (elem s.link_id link.conflict_lanelet_ids)) [
        | inr apart ↦
            let rest = latest_from-some link none ss c (rw (apart, latest_from) at h) in
            (tt, (inl apart, rest.1))
        | inl conflicts ↦
            let rest = latest_from-some link (some s) ss c (rw (conflicts, latest_from) at h) in
            (tt, (inr rest.0, rest.1))
      ]
  latest_from-some link (some f) (s ∷ ss) c h =
      elim (Bool-cases (elem s.link_id link.conflict_lanelet_ids)) [
        | inr apart ↦
            let rest = latest_from-some link (some f) ss c (rw (apart, latest_from) at h) in
            (rest.0, (inl apart, rest.1))
        | inl conflicts ↦ elim (Bool-cases (ltb f.dt s.dt)) [
          | inl later ↦
              let rest =
                latest_from-some link (some s) ss c (rw (conflicts, later, latest_from) at h) in
              let bound : s.dt ≤ c.dt = rest.0 in (ground arith, (inr bound, rest.1))
          | inr earlier ↦
              let rest =
                latest_from-some link (some f) ss c (rw (conflicts, earlier, latest_from) at h) in
              let bound : f.dt ≤ c.dt = rest.0 in (bound, (inr (ground arith), rest.1))
        ]
      ]

  latest_from-none :
      (link : LaneletInfo F) (found : Option AllStopSchedule) (ss : List AllStopSchedule)
      → latest_from link found ss ≡ none
      → (found ≡ none) × NoConflict link ss
  unfolding latest_from
  latest_from-none link found [] h = (h, tt)
  latest_from-none link none (s ∷ ss) h =
      elim (Bool-cases (elem s.link_id link.conflict_lanelet_ids)) [
        | inr apart ↦
            let rest = latest_from-none link none ss (rw (apart, latest_from) at h) in
            (refl, (apart, rest.1))
        | inl conflicts ↦
            let rest = latest_from-none link (some s) ss (rw (conflicts, latest_from) at h) in
            let bad : some s ≡ none = rest.0 in cc bad
      ]
  latest_from-none link (some f) (s ∷ ss) h =
      elim (Bool-cases (elem s.link_id link.conflict_lanelet_ids)) [
        | inr apart ↦
            let rest = latest_from-none link (some f) ss (rw (apart, latest_from) at h) in
            let bad : some f ≡ none = rest.0 in cc bad
        | inl conflicts ↦ elim (Bool-cases (ltb f.dt s.dt)) [
          | inl later ↦
              let rest =
                latest_from-none link (some s) ss (rw (conflicts, later, latest_from) at h) in
              let bad : some s ≡ none = rest.0 in cc bad
          | inr earlier ↦
              let rest =
                latest_from-none link (some f) ss (rw (conflicts, earlier, latest_from) at h) in
              let bad : some f ≡ none = rest.0 in cc bad
        ]
      ]

  pub get_latest_conflicting-some :
      (link : LaneletInfo F) (ss : List AllStopSchedule) (c : AllStopSchedule)
      → get_latest_conflicting link ss ≡ some c
      → ClearOf link ss c.dt
  unfolding get_latest_conflicting
  get_latest_conflicting-some link ss c h = (latest_from-some link none ss c h).1

  pub get_latest_conflicting-none :
      (link : LaneletInfo F) (ss : List AllStopSchedule)
      → get_latest_conflicting link ss ≡ none
      → NoConflict link ss
  unfolding get_latest_conflicting
  get_latest_conflicting-none link ss h = (latest_from-none link none ss h).1

  pub NoConflict-ClearOf :
      (link : LaneletInfo F) (ss : List AllStopSchedule) (time : ℕ)
      → NoConflict link ss
      → ClearOf link ss time
  NoConflict-ClearOf link ss time h =
      All-map (λ t. elem t.link_id link.conflict_lanelet_ids ≡ false)
        (λ t. (elem t.link_id link.conflict_lanelet_ids ≡ false) ⊎ (t.dt ≤ time))
        (λ t apart. inl apart) ss h

  -- The link that get_link_lanelet_info returns stands under the vehicle's link id.
  pub link_of :
      (info : IntersectionInfo F) (v : Vehicle F) (link : LaneletInfo F)
      → get_link_lanelet_info info v ≡ ok link
      → lanelet_from none v.link_id info.link_lanelets ≡ some link
  unfolding get_link_lanelet_info
  link_of info v link h = elim (Option-cases (lanelet_from none v.link_id info.link_lanelets)) [
    | inl missing ↦
        let bad : err no_link_lane ≡ ok link = rw (missing, get_link_lanelet_info) at h in cc bad
    | inr (l, found) ↦
        let same : ok l ≡ ok link = rw (found, get_link_lanelet_info) at h in
        let eq : l ≡ link = cc same in rw (← eq) found
  ]
