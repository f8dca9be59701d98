-- ===== src/Bridge/Socket/Newest.antt =====
-- The page of src/server.rs field by field: the newest value that a list of frames carries.
use propmonitor.Base.{
  List, [], ◌∷◌, ◌++◌, Option, none, some, get_last?, ◌⊎◌, inl, inr, ◌≡◌, refl, sym, ◌∙◌,
}
use propmonitor.Store.{StoredMeasurement}
use propmonitor.Events
use propmonitor.Events.{WsEvent}
use propmonitor.Bridge.Run.{measurements_in, device_after, level_after}
use propmonitor.Bridge.Snapshot.{page}

module _ {W A : Type 0} (pick : W → Option A) where
  abbrev pub or_old : Option A → Option A → Option A
  or_old none d = d
  or_old (some a) d = some a

  -- The newest value that the list carries, or the one before it.
  abbrev pub newest : Option A → List W → Option A
  newest d [] = d
  newest d (f ∷ fs) = newest (or_old (pick f) d) fs

  pub newest-append :
      (d : Option A) (xs ys : List W) → newest d (xs ++ ys) ≡ newest (newest d xs) ys
  newest-append d [] ys = refl
  newest-append d (x ∷ xs) ys = newest-append (or_old (pick x) d) xs ys

  -- A list carries no value, or the same one after whatever came before it.
  newest-cases :
      (fs : List W)
      → ((d : Option A) → newest d fs ≡ d) ⊎ ((d e : Option A) → newest d fs ≡ newest e fs)
  newest-cases [] = inl (λ d. refl)
  newest-cases (f ∷ fs) = step (pick f) (newest-cases fs)
    where
      step :
          (o : Option A)
          → ((d : Option A) → newest d fs ≡ d) ⊎ ((d e : Option A) → newest d fs ≡ newest e fs)
          → ((d : Option A) → newest (or_old o d) fs ≡ d)
            ⊎ ((d e : Option A) → newest (or_old o d) fs ≡ newest (or_old o e) fs)
      step none (inl h) = inl h
      step none (inr h) = inr h
      step (some a) h = inr (λ d e. refl)

  -- To see a list again changes nothing.
  pub newest-newest : (d : Option A) (xs : List W) → newest (newest d xs) xs ≡ newest d xs
  newest-newest d xs = elim (newest-cases xs) [
    | inl keeps ↦ keeps (newest d xs)
    | inr same ↦ same (newest d xs) d
  ]

module _ {A : Type 0} where
  -- The last of a list, or the one before it.
  abbrev last_or : Option A → List A → Option A
  last_or o [] = o
  last_or o (x ∷ xs) = last_or (some x) xs

  last_or-some : (x : A) (xs : List A) → last_or (some x) xs ≡ get_last? (x ∷ xs)
  last_or-some x [] = refl
  last_or-some x (y ∷ ys) = last_or-some y ys

  last_or-none : (xs : List A) → last_or none xs ≡ get_last? xs
  last_or-none [] = refl
  last_or-none (x ∷ xs) = last_or-some x xs

module _ {F S : Type 0} where
  abbrev pub device_of : WsEvent F S → Option (WsEvent F S)
  device_of (Events.device_info i) = some (Events.device_info i)
  device_of _ = none

  abbrev pub level_of : WsEvent F S → Option F
  level_of (Events.raw_level l) = some l
  level_of _ = none

  abbrev pub measured_of : WsEvent F S → Option (StoredMeasurement F)
  measured_of (Events.measurement m) = some m
  measured_of _ = none

  fields-newest :
      (d : Option (WsEvent F S)) (r : Option F) (m : Option (StoredMeasurement F))
      (fs : List (WsEvent F S))
      → (device_after d fs ≡ newest device_of d fs)
        × (level_after r fs ≡ newest level_of r fs)
        × (last_or m (measurements_in fs) ≡ newest measured_of m fs)
  fields-newest d r m [] = (refl, refl, refl)
  fields-newest d r m (Events.device_info i ∷ fs) =
      fields-newest (some (Events.device_info i)) r m fs
  fields-newest d r m (Events.raw_level l ∷ fs) = fields-newest d (some l) m fs
  fields-newest d r m (Events.waterfall x y z ∷ fs) = fields-newest d r m fs
  fields-newest d r m (Events.period_started a ∷ fs) = fields-newest d r m fs
  fields-newest d r m (Events.measurement a ∷ fs) = fields-newest d r (some a) fs
  fields-newest d r m (Events.upload x y z ∷ fs) = fields-newest d r m fs
  fields-newest d r m (Events.error e ∷ fs) = fields-newest d r m fs
  fields-newest d r m (Events.update x y z ∷ fs) = fields-newest d r m fs
  fields-newest d r m (Events.config c ∷ fs) = fields-newest d r m fs
  fields-newest d r m (Events.heartbeat a ∷ fs) = fields-newest d r m fs

  -- A page is three newest values.
  pub page-newest :
      (fs : List (WsEvent F S))
      → page fs ≡ (newest device_of none fs, newest level_of none fs, newest measured_of none fs)
  page-newest fs =
      let (d, r, m) = fields-newest none none none fs in
      let m = sym (last_or-none (measurements_in fs)) ∙ m in λ i. (d i, r i, m i)
