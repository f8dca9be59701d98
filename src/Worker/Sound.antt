-- ===== src/Worker/Sound.antt =====
-- Steps of src/worker.rs that may end the thread: what holds after them if they do not, and that an
-- end is no panic.
use propmonitor.Base.{Result, ok, err, ◌>>=◌, ◌≡◌, ◌≢◌, subst}
use propmonitor.Worker.Capture.{Capture, Ending, panicked}

module _ {F S C : Type 0} where
  -- `P` holds of the state that the step leaves, and an early end is no panic.
  abbrev pub Sound : (Capture F S C → Type 0) → Result (Ending F S) (Capture F S C) → Type 0
  Sound P (ok c) = P c
  Sound P (err ending) = ending.outcome ≢ panicked

  pub Sound->>= :
      (P Q : Capture F S C → Type 0) (first : Result (Ending F S) (Capture F S C))
      (next : Capture F S C → Result (Ending F S) (Capture F S C))
      → Sound P first
      → ((c : Capture F S C) → P c → Sound Q (next c))
      → Sound Q (first >>= next)
  Sound->>= P Q (ok c) next p q = q c p
  Sound->>= P Q (err ending) next p q = p

  pub Sound-weaken :
      (P Q : Capture F S C → Type 0) (result : Result (Ending F S) (Capture F S C))
      → Sound P result
      → ((c : Capture F S C) → P c → Q c)
      → Sound Q result
  Sound-weaken P Q (ok c) p q = q c p
  Sound-weaken P Q (err ending) p q = p

  -- What holds of a step that is sound and does not end.
  pub Sound-ok :
      (P : Capture F S C → Type 0) (result : Result (Ending F S) (Capture F S C))
      {c : Capture F S C}
      → Sound P result
      → result ≡ ok c
      → P c
  Sound-ok P (ok d) p e = subst P (cc e) p
  Sound-ok P (err ending) p e = cc
