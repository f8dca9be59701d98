-- ===== src/Store/History.antt =====
-- The store of src/store.rs after a history of measurements.
mod Tests
use propmonitor.Base.{
  ℕ, zero, suc, ◌+◌, ◌-◌, ◌≤◌, ◌<◌, min, drop-all, append_assoc, append-nil, ltb, List, [], ◌∷◌,
  ◌++◌, length, length-append, length-drop, drop, drop-append, drop_one-drop, get_last?,
  get_last?-append, ◌==◌, ==→eq, Bool-cases, inl, inr, ◌≡◌, refl, sym, ap, ◌∙◌, subst, Option, some,
  none, if◌then◌else◌, true, false, arith,
}
use propmonitor.Store.{MeasurementStore, max_entries, new, push, recent, last}

module _ {M : Type 0} where
  -- The store after a history of measurements, oldest first.
  unfoldable pub pushes : MeasurementStore M → List M → MeasurementStore M
  pushes s [] = s
  pushes s (m ∷ ms) = pushes (push s m) ms

  -- The last `n` measurements of a history.
  abbrev pub newest : ℕ → List M → List M
  newest n ms = drop (length ms - n) ms

  pub length-newest : (n : ℕ) (ms : List M) → length (newest n ms) ≡ min n (length ms)
  length-newest n ms = omega (arith, length-drop (length ms - n) ms)

  -- A measurement at the end of a list that keeps at most a day's.
  unfoldable pub append_one : List M → M → List M
  append_one es m = (if length es == max_entries then drop 1 es else es) ++ m ∷ []

  pub append_one-newest :
      (ms : List M) (m : M)
      → append_one (newest max_entries ms) m ≡ newest max_entries (ms ++ m ∷ [])
  unfolding append_one
  append_one-newest ms m =
      let len = length-newest max_entries ms in
      let total = length-append ms (m ∷ []) in
      let k = length ms - max_entries in
      elim (Bool-cases (length (newest max_entries ms) == max_entries)) [
        | inl full ↦
            let long : max_entries ≤ length ms =
              omega (arith, ==→eq (length (newest max_entries ms)) max_entries full) in
            ap (λ b. (if b then drop 1 (drop k ms) else drop k ms) ++ m ∷ []) full
            ∙ ap (λ es. es ++ m ∷ []) (drop_one-drop k ms)
            ∙ sym (drop-append (suc k) ms (m ∷ []) (omega arith))
            ∙ ap (λ j. drop j (ms ++ m ∷ [])) {x = suc k} (omega arith)
        | inr room ↦
            ap (λ b. (if b then drop 1 (drop k ms) else drop k ms) ++ m ∷ []) room
            ∙ sym (drop-append k ms (m ∷ []) (omega arith))
            ∙ ap (λ j. drop j (ms ++ m ∷ [])) {x = k} (ground arith)
      ]

  push-entries :
      (s : MeasurementStore M) (ms : List M) (m : M)
      → s.entries ≡ newest max_entries ms
      → (push s m).entries ≡ newest max_entries (ms ++ m ∷ [])
  unfolding push append_one
  push-entries s ms m h = ap (λ es. append_one es m) h ∙ append_one-newest ms m

  pushes-entries :
      (s : MeasurementStore M) (before ms : List M)
      → s.entries ≡ newest max_entries before
      → (pushes s ms).entries ≡ newest max_entries (before ++ ms)
  unfolding pushes
  pushes-entries s before [] h = h ∙ ap (newest max_entries) (sym (append-nil before))
  pushes-entries s before (m ∷ ms) h =
      pushes-entries (push s m) (before ++ m ∷ []) ms (push-entries s before m h)
      ∙ ap (newest max_entries) (append_assoc before (m ∷ []) ms)

  drop-drop : (a b : ℕ) (ms : List M) → drop a (drop b ms) ≡ drop (a + b) ms
  drop-drop a zero ms = ap (λ k. drop k ms) (omega arith)
  drop-drop zero (suc b) [] = sym (drop-all (zero + suc b) [] (omega arith))
  drop-drop (suc a) (suc b) [] = sym (drop-all (suc a + suc b) [] (omega arith))
  drop-drop a (suc b) (m ∷ ms) =
      drop-drop a b ms ∙ ap (λ k. drop k (m ∷ ms)) {x = suc (a + b)} (omega arith)

  newest-newest : (k n : ℕ) (ms : List M) → newest k (newest n ms) ≡ newest (min k n) ms
  newest-newest k n ms =
      drop-drop (length (newest n ms) - k) (length ms - n) ms
      ∙ ap (λ j. drop j ms) (omega (arith, length-newest n ms))

  get_last?-drop : (k : ℕ) (ms : List M) → k < length ms → get_last? (drop k ms) ≡ get_last? ms
  get_last?-drop zero ms h = refl
  get_last?-drop (suc k) [] h = absurd (omega arith)
  get_last?-drop (suc k) (m ∷ []) h = absurd (omega arith)
  get_last?-drop (suc k) (m ∷ o ∷ ms) h = get_last?-drop k (o ∷ ms) (omega arith)

  get_last?-newest : (n : ℕ) (ms : List M) → get_last? (newest (suc n) ms) ≡ get_last? ms
  get_last?-newest n [] =
      ap get_last? {x = drop (0 - suc n) []} (drop-all (0 - suc n) [] (omega arith))
  get_last?-newest n (m ∷ ms) = get_last?-drop (length (m ∷ ms) - suc n) (m ∷ ms) (omega arith)

  recent-newest : (s : MeasurementStore M) (limit : ℕ) → recent s limit ≡ newest limit s.entries
  unfolding recent
  recent-newest s limit = ap (λ j. drop j s.entries) (omega arith)

  last-entries : (s : MeasurementStore M) → last s ≡ get_last? s.entries
  unfolding last
  last-entries s = refl

  pub last-push : (s : MeasurementStore M) (m : M) → last (push s m) ≡ some m
  unfolding last push
  last-push s m =
      get_last?-append (if length s.entries == max_entries then drop 1 s.entries else s.entries) m

  new-entries : (ms : List M) → (pushes new ms).entries ≡ newest max_entries ms
  unfolding new
  new-entries ms = pushes-entries new [] ms refl

  -- After any history of pushes onto a new store, `recent` gives the newest measurements of the
  -- history, oldest first, as many as asked for and at most 1440, and `last` gives the newest one.
  pub recent-pushes :
      (ms : List M) (limit : ℕ)
      → (recent (pushes new ms) limit ≡ newest (min limit max_entries) ms)
        × (last (pushes new ms) ≡ get_last? ms)
        × (length ((pushes new ms).entries) ≤ max_entries)
  recent-pushes ms limit =
      let e = new-entries ms in
      (
        recent-newest (pushes new ms) limit
            ∙ ap (newest limit) e
            ∙ newest-newest limit max_entries ms,
        last-entries (pushes new ms) ∙ ap get_last? e ∙ get_last?-newest 1439 ms,
        subst (λ es. length es ≤ max_entries) (sym e) (omega (arith, length-newest max_entries ms)),
      )
