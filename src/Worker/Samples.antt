-- ===== src/Worker/Samples.antt =====
-- The sample loop of src/worker.rs: the level, the ring and the rows.
use propmonitor.Base.{
  ℕ, ◌+◌, ◌<◌, Bool, true, false, ◌&&◌, leb, some, List, [], ◌∷◌, ◌++◌, append-nil, append_assoc,
  length, drop, turned, turned-set, newest-append, drop-append, length-set, ok, all, ◌≡◌, refl, sym,
  ap, ◌∙◌, arith, lt→ltb, Bool-cases, inl, inr,
}
use native.Mathlib.Nat.{mod-lt}
use propmonitor.Float.{Float}
use propmonitor.Signal.{Signal}
use propmonitor.Worker
use propmonitor.Worker.{WorkerEvent}
use propmonitor.Worker.Waterfall.{waterfall_fft_n, compute_waterfall_bins}
use propmonitor.Worker.Row.{row_of, compute_waterfall_bins-row_of, length-turned}
use propmonitor.Worker.Sound.{Sound, Sound->>=, Sound-weaken, Sound-ok}
use propmonitor.Worker.Capture.{
  Capture, Tuning, send, emit_level, add_level, add_to_ring, send_row, emit_row, add_sample,
  add_samples,
}

-- The live events, which no window depends on.
abbrev pub is_live : {F S : Type 0} → WorkerEvent F S → Bool
is_live (Worker.raw_level l) = true
is_live (Worker.waterfall_row x y z) = true
is_live _ = false

pub all-append :
    {A : Type 0} (p : A → Bool) (xs ys : List A)
    → all p xs ≡ true
    → all p ys ≡ true
    → all p (xs ++ ys) ≡ true
all-append p [] ys h k = k
all-append p (x ∷ xs) ys h k = ground (arith, all-append p xs ys)

module _ {F S C : Type 0} where
  -- The ring has its fixed length, and the next place is in it.
  pub record IsRing (c : Capture F S C) : Type 0 where
    pub ring_length : length c.wf_ring ≡ waterfall_fft_n
    pub pos_below : c.wf_pos < waterfall_fft_n

  -- What the samples `read` change on the way from `c` to `d`.
  pub record Goes (read : List C) (c d : Capture F S C) : Type 0 where
    pub analyzer : d.analyzer ≡ c.analyzer
    pub frame_buf : d.frame_buf ≡ c.frame_buf
    pub ring : turned d.wf_pos d.wf_ring ≡ drop (length read) (turned c.wf_pos c.wf_ring ++ read)
    pub ring_length : length d.wf_ring ≡ waterfall_fft_n
    pub pos_below : d.wf_pos < waterfall_fft_n
    pub live : List (WorkerEvent F S)
    pub sent : d.sent ≡ c.sent ++ live
    pub all_live : all is_live live ≡ true

  pub Goes-IsRing : {read : List C} {c d : Capture F S C} → Goes read c d → IsRing d
  Goes-IsRing g = record { ring_length = g.ring_length; pos_below = g.pos_below }

  pub Goes-refl : (c : Capture F S C) → IsRing c → Goes [] c c
  Goes-refl c h = record {
    analyzer = refl;
    frame_buf = refl;
    ring = sym (append-nil _);
    ring_length = h.ring_length;
    pos_below = h.pos_below;
    live = [];
    sent = sym (append-nil c.sent);
    all_live = refl;
  }

  pub Goes-trans :
      {xs ys : List C} {c d e : Capture F S C} → Goes xs c d → Goes ys d e → Goes (xs ++ ys) c e
  Goes-trans {xs} {ys} {c} g h = record {
    analyzer = h.analyzer ∙ g.analyzer;
    frame_buf = h.frame_buf ∙ g.frame_buf;
    ring =
        h.ring
        ∙ ap (λ zs. drop (length ys) (zs ++ ys)) g.ring
        ∙ newest-append (turned c.wf_pos c.wf_ring) xs ys;
    ring_length = h.ring_length;
    pos_below = h.pos_below;
    live = g.live ++ h.live;
    sent = h.sent ∙ ap (λ s. s ++ h.live) g.sent ∙ append_assoc c.sent g.live h.live;
    all_live = all-append is_live g.live h.live g.all_live h.all_live;
  }

  send-Goes :
      (takes : ℕ → Bool) (c : Capture F S C) (event : WorkerEvent F S)
      → IsRing c
      → is_live event ≡ true
      → Sound (Goes [] c) (send takes c event)
  unfolding send
  send-Goes takes c event h live = elim (Bool-cases (takes (length c.sent))) [
    | inl taken ↦ rw taken (record {
      analyzer = refl;
      frame_buf = refl;
      ring = sym (append-nil _);
      ring_length = h.ring_length;
      pos_below = h.pos_below;
      live = event ∷ [];
      sent = refl;
      all_live = ground arith;
    })
    | inr gone ↦ rw gone (λ e. cc e)
  ]

module _ (fl : Float) (sg : Signal fl) (tune : Tuning (Float.F fl) (Signal.S sg)) (takes : ℕ → Bool)
    (forward_length : (xs : List (Signal.C sg)) → length (Signal.forward sg xs) ≡ length xs)
    (window_length : length tune.hann ≡ waterfall_fft_n) where
  open fl use {F, add, of_ℕ}
  open sg use {S, C, to_f64, norm_sqr}

  abbrev summed : Capture F S C → C → Capture F S C
  summed c s = record c {
    raw_power_sum = add c.raw_power_sum (to_f64 (norm_sqr s));
    raw_power_n = c.raw_power_n + 1;
  }

  add_level-Goes :
      (c : Capture F S C) (s : C) → IsRing c → Sound (Goes [] c) (add_level fl sg tune takes c s)
  unfolding add_level emit_level
  add_level-Goes c s h = elim (Bool-cases (leb tune.raw_emit_every (c.raw_power_n + 1))) [
    | inl enough ↦ rw enough (
        Sound->>= (Goes [] (summed c s)) (Goes [] c) (send takes (summed c s) _) _
          (send-Goes takes (summed c s) (Worker.raw_level _)
            (record { ring_length = h.ring_length; pos_below = h.pos_below }) refl)
          λ d g. record {
            analyzer = g.analyzer;
            frame_buf = g.frame_buf;
            ring = g.ring;
            ring_length = g.ring_length;
            pos_below = g.pos_below;
            live = g.live;
            sent = g.sent;
            all_live = g.all_live;
          })
    | inr few ↦ rw few (record {
      analyzer = refl;
      frame_buf = refl;
      ring = sym (append-nil _);
      ring_length = h.ring_length;
      pos_below = h.pos_below;
      live = [];
      sent = sym (append-nil c.sent);
      all_live = refl;
    })
  ]

  add_to_ring-Goes :
      (c : Capture F S C) (s : C)
      → IsRing c
      → Sound (Goes (s ∷ []) c) (add_to_ring fl sg tune takes c s)
  unfolding add_to_ring
  add_to_ring-Goes c s h =
      rw (lt→ltb c.wf_pos (length c.wf_ring) (omega (arith, h.ring_length, h.pos_below))) (record {
        analyzer = refl;
        frame_buf = refl;
        ring =
            turned-set c.wf_ring waterfall_fft_n c.wf_pos s h.ring_length h.pos_below
            ∙ sym (
                drop-append 1 (turned c.wf_pos c.wf_ring) (s ∷ []) (
                  omega (
                    arith,
                    h.pos_below,
                    h.ring_length,
                    length-turned c.wf_ring c.wf_pos (omega (arith, h.pos_below, h.ring_length)),
                  )));
        ring_length = length-set c.wf_ring c.wf_pos s ∙ h.ring_length;
        pos_below = mod-lt (c.wf_pos + 1) (omega (arith, h.pos_below));
        live = [];
        sent = sym (append-nil c.sent);
        all_live = refl;
      })

  abbrev waiting : Capture F S C → Capture F S C
  waiting c = record c { wf_since_emit = 0 }

  send_row-Goes : (c : Capture F S C) → IsRing c → Sound (Goes [] c) (send_row fl sg tune takes c)
  unfolding send_row
  send_row-Goes c h =
      rw
        (compute_waterfall_bins-row_of fl sg forward_length c.wf_ring c.wf_pos tune.hann
          h.ring_length h.pos_below window_length)
        (Sound-weaken (Goes [] (waiting c)) (Goes [] c) (send takes (waiting c) _)
          (send-Goes takes (waiting c) (Worker.waterfall_row _ _ _)
            (record { ring_length = h.ring_length; pos_below = h.pos_below }) refl)
          λ d g. record {
            analyzer = g.analyzer;
            frame_buf = g.frame_buf;
            ring = g.ring;
            ring_length = g.ring_length;
            pos_below = g.pos_below;
            live = g.live;
            sent = g.sent;
            all_live = g.all_live;
          })

  emit_row-Goes : (c : Capture F S C) → IsRing c → Sound (Goes [] c) (emit_row fl sg tune takes c)
  unfolding emit_row
  emit_row-Goes c h =
      elim (Bool-cases
        (leb tune.wf_emit_every c.wf_since_emit && leb waterfall_fft_n c.wf_filled)) [
          | inl due ↦ rw due (send_row-Goes c h)
          | inr early ↦ rw early (Goes-refl c h)
        ]

  add_sample-Goes :
      (c : Capture F S C) (s : C)
      → IsRing c
      → Sound (Goes (s ∷ []) c) (add_sample fl sg tune takes c s)
  unfolding add_sample
  add_sample-Goes c s h =
      Sound->>= (Goes [] c) (Goes (s ∷ []) c) (add_level fl sg tune takes c s) _
        (add_level-Goes c s h)
        λ d g.
          Sound->>= (Goes (s ∷ []) d) (Goes (s ∷ []) c) (add_to_ring fl sg tune takes d s) _
            (add_to_ring-Goes d s (Goes-IsRing g))
            λ e k.
              Sound-weaken (Goes [] e) (Goes (s ∷ []) c) (emit_row fl sg tune takes e)
                (emit_row-Goes e (Goes-IsRing k)) λ r l. Goes-trans (Goes-trans g k) l

  -- The loop over a chunk does not panic: it leaves the analyzer and the buffer of frames alone,
  -- sends live events only, and the ring holds the newest samples.
  pub add_samples-Goes :
      (c : Capture F S C) (read : List C)
      → IsRing c
      → Sound (Goes read c) (add_samples fl sg tune takes c read)
  unfolding add_samples
  add_samples-Goes c [] h = Goes-refl c h
  add_samples-Goes c (s ∷ ss) h =
      Sound->>= (Goes (s ∷ []) c) (Goes (s ∷ ss) c) (add_sample fl sg tune takes c s) _
        (add_sample-Goes c s h)
        λ d g.
          Sound-weaken (Goes ss d) (Goes (s ∷ ss) c) (add_samples fl sg tune takes d ss)
            (add_samples-Goes d ss (Goes-IsRing g)) λ e k. Goes-trans g k

  -- After a chunk of samples, if the transform keeps the length, the row of the waterfall is that of
  -- the newest samples, the oldest first: of as many as the ring holds, across the chunk and what
  -- was in the ring before it.
  pub add_samples-newest :
      (c : Capture F S C) (read : List C) {d : Capture F S C}
      → IsRing c
      → add_samples fl sg tune takes c read ≡ ok d
      → compute_waterfall_bins fl sg d.wf_ring d.wf_pos tune.hann
        ≡ some (row_of fl sg (drop (length read) (turned c.wf_pos c.wf_ring ++ read)) tune.hann)
  add_samples-newest c read {d} h e =
      let g =
        Sound-ok (Goes read c) (add_samples fl sg tune takes c read) (add_samples-Goes c read h)
          e in
      compute_waterfall_bins-row_of fl sg forward_length d.wf_ring d.wf_pos tune.hann g.ring_length
        g.pos_below window_length
      ∙ ap (λ newest. some (row_of fl sg newest tune.hann)) g.ring
