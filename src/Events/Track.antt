-- ===== src/Events/Track.antt =====
-- What a sequence of events leaves in one map, where each event sets a key to true, to false, or
-- nothing: a key is false at the end just where its last event set it so.
use sink_production_suite.Prelude.{
  String, Bool, true, false, ◌&&◌, ◌||◌, Option, none, some, List, [], ◌∷◌, ◌≡◌, ◌≢◌, ◌↔◌, ◌∙◌, sym,
  ap, inl, inr, arith, eq_iff, ◌==◌, string_eq, Option-cases, if◌then◌else◌,
}
use sink_production_suite.Events.Map.{Flags, get, put, get-put, put-IsMap, IsMap}
use sink_production_suite.Events.Model.{Event, Decoded, entry, broken}

-- The key that an event sets, and the value.
abbrev pub Mark : Type 0
Mark = Option (String × Bool)

unfoldable pub set_mark : Flags → Mark → Flags
set_mark m none = m
set_mark m (some (k, v)) = put m k v

-- Whether the mark sets the key to true.
abbrev pub closes : Mark → String → Bool
closes none k = false
closes (some (j, v)) k = v && j == k

module _ (mark : Event → Mark) where
  unfoldable pub track : Flags → List Decoded → Flags
  unfolding set_mark
  track m [] = m
  track m (broken ∷ rest) = track m rest
  track m (entry e ∷ rest) = track (set_mark m (mark e)) rest

  -- Some event sets the key to true.
  abbrev pub has_closing : List Decoded → String → Bool
  has_closing [] k = false
  has_closing (broken ∷ rest) k = has_closing rest k
  has_closing (entry e ∷ rest) k = closes (mark e) k || has_closing rest k

  -- Each event that sets a key to false is followed by one that sets it to true.
  abbrev pub AllClosed : List Decoded → Type 0
  AllClosed [] = Unit
  AllClosed (broken ∷ rest) = AllClosed rest
  AllClosed (entry e ∷ rest) =
      ((k : String) → mark e ≡ some (k, false) → has_closing rest k ≡ true) × AllClosed rest

  abbrev pub IsPending : Flags → List Decoded → Type 0
  IsPending m l = (k : String) → get m k ≡ some false → has_closing l k ≡ true

  get-set_mark :
      (m : Flags) (e : Event) (k j : String) (v : Bool)
      → mark e ≡ some (j, v)
      → get (set_mark m (mark e)) k ≡ (if j == k then some v else get m k)
  unfolding set_mark
  get-set_mark m e k j v h = rw h (get-put m j k v)

  set_mark-none : (m : Flags) (e : Event) → mark e ≡ none → set_mark m (mark e) ≡ m
  unfolding set_mark
  set_mark-none m e h = rw h

  pub track-IsMap : (m : Flags) (l : List Decoded) → IsMap m → IsMap (track m l)
  unfolding track
  track-IsMap m [] h = h
  track-IsMap m (broken ∷ l) h = track-IsMap m l h
  track-IsMap m (entry e ∷ l) h = track-IsMap (set_mark m (mark e)) l (kept (mark e))
    where
      kept : (x : Mark) → IsMap (set_mark m x)
      kept none = h
      kept (some (k, v)) = put-IsMap m k v h

  -- After one event, what is pending.
  IsPending-step :
      (m : Flags) (e : Event) (l : List Decoded)
      → IsPending (set_mark m (mark e)) l
      → IsPending m (entry e ∷ l)
        × ((k : String) → mark e ≡ some (k, false) → has_closing l k ≡ true)
  IsPending-step m e l h = elim (Option-cases (mark e)) [
    | inl gone ↦ (
      λ k p. ground (arith, gone, h k (ap (λ m. get m k) (set_mark-none m e gone) ∙ p)),
      λ k p. cc,
    )
    | inr ((j, v), there) ↦ (
      λ k p. ground (arith, there, get-set_mark m e k j v there, h k),
      λ k p. ground (arith, there, p, get-set_mark m e k j v there, h k, eq_iff j k),
    )
  ]

  step-IsPending :
      (m : Flags) (e : Event) (l : List Decoded)
      → IsPending m (entry e ∷ l)
      → ((k : String) → mark e ≡ some (k, false) → has_closing l k ≡ true)
      → IsPending (set_mark m (mark e)) l
  step-IsPending m e l h c k p = elim (Option-cases (mark e)) [
    | inl gone ↦ ground (arith, gone, h k (sym (ap (λ m. get m k) (set_mark-none m e gone)) ∙ p))
    | inr ((j, v), there) ↦
        ground (arith, there, get-set_mark m e k j v there, h k, c k, eq_iff j k)
  ]

  -- No key is false at the end just where each event that sets one to false is followed by one that
  -- sets it to true, and each key that was false before is set to true.
  pub track_closed :
      (m : Flags) (l : List Decoded)
      → ((k : String) → get (track m l) k ≢ some false) ↔ (IsPending m l × AllClosed l)
  unfolding track
  track_closed m [] = (λ h. (λ k p. absurd (h k p), tt), λ (p, _) k e. cc (p k e))
  track_closed m (broken ∷ l) = track_closed m l
  track_closed m (entry e ∷ l) =
      let ih = track_closed (set_mark m (mark e)) l in
      (
        λ h.
            let (pending, closed) = ih.0 h in
            let (before, now) = IsPending-step m e l pending in (before, (now, closed)),
        λ (before, (now, closed)). ih.1 (step-IsPending m e l before now, closed),
      )
