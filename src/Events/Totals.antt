-- ===== src/Events/Totals.antt =====
-- What the loop of `Check` in internal/testevents/events.go leaves in its counter and its maps.
use sink_production_suite.Prelude.{
  ℕ, ◌+◌, ◌<◌, ◌%◌, ◌^◌, String, Bool, true, false, not, ◌&&◌, ◌||◌, none, some, List, [], ◌∷◌, ◌≡◌,
  ◌∙◌, ap, refl, inl, inr, arith, ◌==◌, string_eq, eqb, Bool-cases, Option-cases, if◌then◌else◌,
  length,
}
use sink_production_suite.Events.Map.{Flags, put, get-put}
use sink_production_suite.Events.Model.{
  Event, Decoded, entry, broken, classify, is_passed, Action, start, run, bad, pass, ignored,
}
use sink_production_suite.Events.Track.{Mark, set_mark, closes, track, has_closing}
use sink_production_suite.Events.Evidence.{pass_case, pass_mark, has_mark}
use sink_production_suite.Events.Collected.{counted}

pub counted_lem :
    (n : ℕ) (l : List Decoded)
    → n + length l < 2 ^ 64
    → eqb (counted n l) 0 ≡ (eqb n 0 && not (has_mark pass_mark l))
unfolding has_mark
counted_lem n [] h = ground arith
counted_lem n (broken ∷ l) h = counted_lem n l (omega arith)
counted_lem n (entry e ∷ l) h = elim (Option-cases (pass_mark e)) [
  | inl gone ↦ rw gone (counted_lem n l (omega arith))
  | inr (m, there) ↦
      let ih = counted_lem ((n + 1) % 2 ^ 64) l (omega arith) in rw there (ih ∙ ground arith)
]

length-put : (m : Flags) (k : String) (v : Bool) → eqb (length (put m k v)) 0 ≡ false
unfolding put
length-put [] k v = refl
length-put ((j, w) ∷ m) k v = elim (Bool-cases (j == k)) [
  | inl hit ↦ rw hit (ground arith)
  | inr miss ↦ rw miss (ground arith)
]

pub length-track :
    (mark : Event → Mark) (m : Flags) (l : List Decoded)
    → eqb (length (track mark m l)) 0 ≡ (eqb (length m) 0 && not (has_mark mark l))
unfolding track set_mark has_mark
length-track mark m [] = ground arith
length-track mark m (broken ∷ l) = length-track mark m l
length-track mark m (entry e ∷ l) = elim (Option-cases (mark e)) [
  | inl gone ↦ rw gone (length-track mark m l)
  | inr ((k, v), there) ↦
      rw there (length-track mark (put m k v) l ∙ rw (length-put m k v) (ground arith))
]

is_passed-put :
    (m : Flags) (k j : String) (v : Bool)
    → is_passed (put m k v) j ≡ (if k == j then v else is_passed m j)
is_passed-put m k j v =
    ap (λ o. elim o [ some b ↦ b | none ↦ false ]) (get-put m k j v)
    ∙ (elim (Bool-cases (k == j)) [ inl hit ↦ rw hit refl | inr miss ↦ rw miss refl ])

is_passed-set_mark :
    (a : Action) (e : Event) (m : Flags) (k : String)
    → is_passed (set_mark m (pass_case a e)) k ≡ (closes (pass_case a e) k || is_passed m k)
unfolding set_mark
is_passed-set_mark start e m k = refl
is_passed-set_mark run e m k = refl
is_passed-set_mark bad e m k = refl
is_passed-set_mark pass e m k = elim (Bool-cases (e.test == "")) [
  | inl hit ↦ rw hit refl
  | inr miss ↦ rw miss (is_passed-put m e.test k true ∙ ground arith)
]
is_passed-set_mark ignored e m k = refl

pub is_passed-track :
    (m : Flags) (l : List Decoded) (k : String)
    → is_passed (track pass_mark m l) k ≡ (has_closing pass_mark l k || is_passed m k)
unfolding track
is_passed-track m [] k = refl
is_passed-track m (broken ∷ l) k = is_passed-track m l k
is_passed-track m (entry e ∷ l) k =
    is_passed-track (set_mark m (pass_mark e)) l k
    ∙ rw (is_passed-set_mark (classify e.action) e m k) (ground arith)
