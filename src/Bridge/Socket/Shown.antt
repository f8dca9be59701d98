-- ===== src/Bridge/Socket/Shown.antt =====
-- One field of the page of src/server.rs while the bridge and a browser's handler run side by side.
use propmonitor.Base.{
  List, [], ◌∷◌, ◌++◌, append_assoc, append-nil, Bool, true, false, Option, none, some, ◌≡◌, refl,
  sym, ap, subst, ◌∙◌,
}
use propmonitor.Bridge.Socket.Newest.{newest, newest-append, newest-newest, or_old}
use propmonitor.Bridge.Socket.Hub.{
  Place, connecting, subscribed, device_read, level_read, store_read, deliver,
}

-- The frames of an optional frame.
abbrev pub pending : {W : Type 0} → Option W → List W
pending none = []
pending (some ev) = ev ∷ []

abbrev pub has_device : Place → Bool
has_device connecting = false
has_device subscribed = false
has_device _ = true

abbrev pub has_level : Place → Bool
has_level level_read = true
has_level store_read = true
has_level _ = false

abbrev pub has_store : Place → Bool
has_store store_read = true
has_store _ = false

abbrev pub Idle : {W : Type 0} → Place → List W → Type 0
Idle connecting q = q ≡ []
Idle _ q = Unit

-- One field of the page. `d` is what the handler has read of it, if it has read it, or else some
-- value from which the frames since the subscription lead to the field of the state.
module _ {W A : Type 0} (pick : W → Option A) where
  pub record Shown (read : Bool) (r : Option A) (q : List W) (u : Option W) (f : Option A)
      : Type 0 where
    pub d : Option A
    pub known : read ≡ true → d ≡ r
    pub leads : newest pick d (q ++ pending u) ≡ f

  -- The state is written by a turn whose frame is `ev`.
  pub written-Shown :
      (read : Bool) (r f f' : Option A) (q : List W) (u : Option W) (ev : W)
      → u ≡ none
      → f' ≡ newest pick f (ev ∷ [])
      → Shown read r q u f
      → Shown read r q (some ev) f'
  written-Shown read r f f' q u ev nothing_unsent e s = record {
    d = s.d;
    known = s.known;
    leads =
        newest-append pick s.d q (ev ∷ [])
        ∙ ap (λ o. newest pick o (ev ∷ []))
            (ap (newest pick s.d) (sym (append-nil q))
              ∙ ap (λ u. newest pick s.d (q ++ pending u)) (sym nothing_unsent)
              ∙ s.leads)
        ∙ sym e;
  }

  -- Another frame, which says nothing of the field.
  quiet-Shown :
      (read : Bool) (r f : Option A) (q : List W) (u : Option W) (ev : W)
      → pick ev ≡ none
      → Shown read r q u f
      → Shown read r (q ++ ev ∷ []) u f
  quiet-Shown read r f q u ev h s = record {
    d = s.d;
    known = s.known;
    leads =
        ap (newest pick s.d) (append_assoc q (ev ∷ []) (pending u))
        ∙ newest-append pick s.d q (ev ∷ pending u)
        ∙ ap (λ o. newest pick (or_old pick o (newest pick s.d q)) (pending u)) h
        ∙ sym (newest-append pick s.d q (pending u))
        ∙ s.leads;
  }

  pub placed :
      (read now : Bool) (r f : Option A) (q : List W) (u : Option W)
      → read ≡ now
      → Shown read r q u f
      → Shown now r q u f
  placed read now r f q u e s = subst (λ b. Shown b r q u f) e s

  -- The handler reads the field.
  pub read-Shown :
      (read : Bool) (r f : Option A) (q : List W) (u : Option W)
      → Shown read r q u f
      → Shown true f q u f
  read-Shown read r f q u s = record {
    d = f;
    known = λ _. refl;
    leads =
        ap (λ o. newest pick o (q ++ pending u)) (sym s.leads)
        ∙ newest-newest pick s.d (q ++ pending u)
        ∙ s.leads;
  }

  sent_there :
      (read : Bool) (r f : Option A) (q : List W) (u : Option W) (ev : W)
      → u ≡ some ev
      → Shown read r q u f
      → Shown read r (q ++ ev ∷ []) none f
  sent_there read r f q u ev e s = record {
    d = s.d;
    known = s.known;
    leads =
        ap (newest pick s.d) (append-nil (q ++ ev ∷ []))
        ∙ ap (λ u. newest pick s.d (q ++ pending u)) (sym e)
        ∙ s.leads;
  }

  -- The frame is sent: to the receiver, if the handler has one.
  pub sent-Shown :
      (g : Place → Bool) (at : Place) (r f : Option A) (q : List W) (u : Option W) (ev : W)
      → g connecting ≡ false
      → Idle at q
      → u ≡ some ev
      → Shown (g at) r q u f
      → Shown (g at) r (deliver at ev q) none f
  sent-Shown g connecting r f q u ev unread idle e s = record {
    d = f;
    known = λ read. absurd (cc (read, unread));
    leads = ap (λ q. newest pick f (q ++ [])) idle;
  }
  sent-Shown g subscribed r f q u ev unread idle e s = sent_there (g subscribed) r f q u ev e s
  sent-Shown g device_read r f q u ev unread idle e s = sent_there (g device_read) r f q u ev e s
  sent-Shown g level_read r f q u ev unread idle e s = sent_there (g level_read) r f q u ev e s
  sent-Shown g store_read r f q u ev unread idle e s = sent_there (g store_read) r f q u ev e s

  pub other-Shown :
      (read : Bool) (at : Place) (r f : Option A) (q : List W) (u : Option W) (ev : W)
      → pick ev ≡ none
      → Shown read r q u f
      → Shown read r (deliver at ev q) u f
  other-Shown read connecting r f q u ev h s = s
  other-Shown read subscribed r f q u ev h s = quiet-Shown read r f q u ev h s
  other-Shown read device_read r f q u ev h s = quiet-Shown read r f q u ev h s
  other-Shown read level_read r f q u ev h s = quiet-Shown read r f q u ev h s
  other-Shown read store_read r f q u ev h s = quiet-Shown read r f q u ev h s

pub deliver-Idle :
    {W : Type 0} (at : Place) (ev : W) (q : List W) → Idle at q → Idle at (deliver at ev q)
deliver-Idle connecting ev q h = h
deliver-Idle subscribed ev q h = tt
deliver-Idle device_read ev q h = tt
deliver-Idle level_read ev q h = tt
deliver-Idle store_read ev q h = tt
