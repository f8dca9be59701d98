-- ===== src/Bridge/Socket/Sends.antt =====
-- What the loops of `handle_ws` of src/server.rs send to a peer that takes every text.
use propmonitor.Base.{
  Text, List, [], ◌∷◌, ◌++◌, append_assoc, append-nil, Bool, true, false, all, Option, none, some,
  if◌then◌else◌, ◌≡◌, refl, sym, ap, ◌∙◌,
}
use propmonitor.Timefmt.{format_utc_iso8601}
use propmonitor.Events
use propmonitor.Events.{WsEvent}
use propmonitor.Bridge.Socket.{
  received, lagged, closed, Turn, recv, tick, Socket, and_then, frames_of, send_text, send_all,
  serve, handle_ws,
}

-- The texts of a list of frames, those left out that have none.
abbrev or_skip : Option Text → List Text → List Text
or_skip none ss = ss
or_skip (some s) ss = s ∷ ss

or_skip-append : (o : Option Text) (ss ts : List Text) → or_skip o (ss ++ ts) ≡ or_skip o ss ++ ts
or_skip-append none ss ts = refl
or_skip-append (some s) ss ts = refl

module _ {F S : Type 0} where
  -- The channel is not closed by this turn.
  abbrev pub is_open : Turn F S → Bool
  is_open (recv closed) = false
  is_open _ = true

  abbrev pub texts_of : (WsEvent F S → Option Text) → List (WsEvent F S) → List Text
  texts_of to_string [] = []
  texts_of to_string (f ∷ fs) = or_skip (to_string f) (texts_of to_string fs)

  texts_of-append :
      (to_string : WsEvent F S → Option Text) (fs gs : List (WsEvent F S))
      → texts_of to_string (fs ++ gs) ≡ texts_of to_string fs ++ texts_of to_string gs
  texts_of-append to_string [] gs = refl
  texts_of-append to_string (f ∷ fs) gs =
      ap (or_skip (to_string f)) (texts_of-append to_string fs gs)
      ∙ or_skip-append (to_string f) (texts_of to_string fs) (texts_of to_string gs)

module _ {F S : Type 0} (to_string : WsEvent F S → Option Text) (takes : List Text → Text → Bool)
    (live : (sent : List Text) (s : Text) → takes sent s ≡ true) where
  -- One frame, and then what a loop makes of the others.
  then-taken :
      (sent : List Text) (o : Option Text) (rest : List Text) (k : List Text → Socket)
      → ((sent : List Text) → k sent ≡ (sent ++ rest, true))
      → and_then (send_text to_string takes sent o) k ≡ (sent ++ or_skip o rest, true)
  then-taken sent none rest k h = h sent
  then-taken sent (some s) rest k h =
      ap (λ b. and_then (if b then (sent ++ s ∷ [], true) else (sent, false)) k) (live sent s)
      ∙ h (sent ++ s ∷ [])
      ∙ ap (λ ss. (ss, true)) (append_assoc sent (s ∷ []) rest)

  send_all-taken :
      (fs : List (WsEvent F S)) (sent : List Text)
      → send_all to_string takes sent fs ≡ (sent ++ texts_of to_string fs, true)
  unfolding send_all
  send_all-taken [] sent = ap (λ ss. (ss, true)) (sym (append-nil sent))
  send_all-taken (f ∷ fs) sent =
      then-taken sent (to_string f) (texts_of to_string fs) _ (λ sent. send_all-taken fs sent)

  serve-taken :
      (ts : List (Turn F S)) (sent : List Text)
      → all is_open ts ≡ true
      → serve to_string takes sent ts ≡ (sent ++ texts_of to_string (frames_of ts), true)
  unfolding serve
  serve-taken [] sent h = ap (λ ss. (ss, true)) (sym (append-nil sent))
  serve-taken (recv (received ev) ∷ ts) sent h =
      then-taken sent (to_string ev) (texts_of to_string (frames_of ts)) _
        (λ sent. serve-taken ts sent h)
  serve-taken (recv lagged ∷ ts) sent h = serve-taken ts sent h
  serve-taken (recv closed ∷ ts) sent h = absurd (cc h)
  serve-taken (tick now ∷ ts) sent h =
      then-taken sent (to_string (Events.heartbeat (format_utc_iso8601 now)))
        (texts_of to_string (frames_of ts)) _ (λ sent. serve-taken ts sent h)

  pub handle_ws-taken :
      (snapshot : List (WsEvent F S)) (ts : List (Turn F S))
      → all is_open ts ≡ true
      → handle_ws to_string takes snapshot ts
        ≡ (texts_of to_string (snapshot ++ frames_of ts), true)
  unfolding handle_ws
  handle_ws-taken snapshot ts h =
      ap (λ s. and_then s (λ sent. serve to_string takes sent ts)) (send_all-taken snapshot [])
      ∙ serve-taken ts (texts_of to_string snapshot) h
      ∙ ap (λ ss. (ss, true)) (sym (texts_of-append to_string snapshot (frames_of ts)))
