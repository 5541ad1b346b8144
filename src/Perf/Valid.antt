-- ===== src/Perf/Valid.antt =====
-- What `validateSettings` of tools/sink-perf/main.go guarantees.
use Prim.Native.Nat.{max}
use sink_production_suite.Prelude.{
  ℕ, ◌+◌, ◌-◌, ◌*◌, ◌/◌, ◌≤◌, ◌<◌, String, Bool, true, false, none, some, List, [], ◌∷◌, ◌≡◌, ◌∙◌,
  refl, sym, ap, inl, inr, arith, string_eq, if◌then◌else◌, All, Bool-cases, Option-cases, ◌⊎◌,
}
use native.Mathlib.Nat.{
  lt-div-mul-add, div-mul-le_self, le-max_left, le-max_right, mul-le-mul, mul-le-mul_right,
  le-mul_of_pos_right,
}
use mathlib.Core.Path.{subst}
use native.Mathlib.Omega.{max_cases}
use sink_production_suite.Prelude.Int.{ℤ, pos, negsuc, pos_part, ltb_ℤ, int_eq}
use sink_production_suite.Perf.Settings.{
  Settings, SettingsError, first_error, is_outside, any, limit_tests, has_bad_limits,
  settings_tests, per_worker, set_keys, Checked, valid, refused, check_batch, validate_settings,
  batch_exceeds_keys,
}

first_error-All :
    (l : List (Bool × SettingsError)) → first_error l ≡ none → All (λ t. t.0 ≡ false) l
unfolding first_error
first_error-All [] h = tt
first_error-All ((true, e) ∷ l) h = cc
first_error-All ((false, e) ∷ l) h = (refl, first_error-All l h)

-- An integer between two numbers is a number.
is_outside-false :
    (low high : ℕ) (x : ℤ)
    → is_outside low high x ≡ false
    → (n : ℕ) × (x ≡ pos n) × (low ≤ n) × (n ≤ high)
is_outside-false low high (pos n) h = (n, refl, ground arith, ground arith)
is_outside-false low high (negsuc n) h = absurd (ground arith)

-- What the settings are after the call, in terms of those before it.
pub record IsValid {Float : Type 0} (o r : Settings Float) : Type 0 where
  pub writers : ℕ
  pub operations : ℕ
  pub records : ℕ
  pub concurrency : r.concurrency ≡ pos writers
  pub batch : r.batch ≡ pos operations
  pub keys : r.keys ≡ pos records
  pub some_writer : 1 ≤ writers
  pub few_writers : writers ≤ 4096
  pub some_operation : 1 ≤ operations
  pub few_operations : operations ≤ 1000
  pub room : operations ≤ records
  pub few_records : records ≤ 4096000
  pub shares :
      ((r.keys ≡ r.hot_keys) × (ltb_ℤ (pos 0) o.hot_keys ≡ true))
      ⊎ ((ltb_ℤ (pos 0) o.hot_keys ≡ false)
          × ((n : ℕ) × (records ≡ n * writers) × (operations ≤ n) × (pos_part o.keys ≤ records)))

max-mul-le : (a b c n : ℕ) → a * c ≤ n → b * c ≤ n → max a b * c ≤ n
max-mul-le a b c n h g = max_cases a b (max a b * c ≤ n) (λ _ e. rw e g) (λ _ e. rw e h)

-- The records of one worker, times the workers.
per_worker_lem :
    (b k c : ℕ)
    → 1 ≤ c
    → c ≤ 4096
    → b ≤ 1000
    → k ≤ 1000000
    → (b ≤ per_worker b k c)
      × (k ≤ per_worker b k c * c)
      × (per_worker b k c ≤ per_worker b k c * c)
      × (per_worker b k c * c ≤ 4096000)
per_worker_lem b k c c1 c2 b2 k2 =
    let q = (k + c - 1) / c in
    let enough : k + c - 1 < q * c + c = lt-div-mul-add c1 in
    let up : q * c ≤ max b q * c = mul-le-mul_right c (le-max_right b q) in
    (
      le-max_left b q,
      omega arith,
      le-mul_of_pos_right (max b q) c1,
      max-mul-le b q c 4096000 (mul-le-mul b2 c2) (omega (arith, div-mul-le_self (k + c - 1) c)),
    )

any-All : (l : List Bool) → any l ≡ false → All (λ b. b ≡ false) l
unfolding any
any-All [] h = tt
any-All (true ∷ l) h = cc
any-All (false ∷ l) h = (refl, any-All l h)

not_less : (x y : ℤ) (n b : ℕ) → x ≡ pos n → y ≡ pos b → ltb_ℤ x y ≡ false → b ≤ n
not_less x y n b e f h = let h' = rw (e, f) at h in ground (arith, h')

module _ {Float : Type 0} where
  valid_inj : {o r : Settings Float} → valid o ≡ valid r → o ≡ r
  valid_inj {o} h = ap (λ (c : Checked Float). elim c [ valid s ↦ s | refused e ↦ o ]) h

  set_keys_rest :
      (o : Settings Float)
      → ((set_keys o).concurrency ≡ o.concurrency)
        × ((set_keys o).batch ≡ o.batch)
        × ((set_keys o).hot_keys ≡ o.hot_keys)
  unfolding set_keys
  set_keys_rest o = elim (Bool-cases (ltb_ℤ (pos 0) o.hot_keys)) [
    | inl shared ↦ rw shared (refl, refl, refl)
    | inr disjoint ↦ rw disjoint (refl, refl, refl)
  ]

  set_keys_shared :
      (o : Settings Float) → ltb_ℤ (pos 0) o.hot_keys ≡ true → (set_keys o).keys ≡ o.hot_keys
  unfolding set_keys
  set_keys_shared o h = rw h refl

  set_keys_disjoint :
      (o : Settings Float) (c b k : ℕ)
      → o.concurrency ≡ pos c
      → o.batch ≡ pos b
      → o.keys ≡ pos k
      → ltb_ℤ (pos 0) o.hot_keys ≡ false
      → (set_keys o).keys ≡ pos (per_worker b k c * c)
  unfolding set_keys
  set_keys_disjoint o c b k hc hb hk h = rw h (λ i.
      pos (per_worker (pos_part (hb i)) (pos_part (hk i)) (pos_part (hc i)) * pos_part (hc i)))

  check_batch-valid :
      (o r : Settings Float) → check_batch o ≡ valid r → (ltb_ℤ o.keys o.batch ≡ false) × (o ≡ r)
  check_batch-valid o r h = elim (Bool-cases (ltb_ℤ o.keys o.batch)) [
    | inl many ↦ absurd (cc (h, many))
    | inr fits ↦ (
      fits,
      valid_inj (ap (λ b. if b then refused batch_exceeds_keys else valid o) (sym fits) ∙ h),
    )
  ]

  -- After the tests pass and the keys are set.
  set_keys-IsValid :
      (o : Settings Float) (c b k h : ℕ)
      → o.concurrency ≡ pos c
      → o.batch ≡ pos b
      → o.keys ≡ pos k
      → o.hot_keys ≡ pos h
      → (1 ≤ c) × (c ≤ 4096)
      → (1 ≤ b) × (b ≤ 1000)
      → (k ≤ 1000000) × (h ≤ 1000000)
      → ltb_ℤ (set_keys o).keys (set_keys o).batch ≡ false
      → IsValid o (set_keys o)
  set_keys-IsValid o c b k h hc hb hk hh (c1, c2) (b1, b2) (k2, h2) room =
      let (rc, rb, rh) = set_keys_rest o in
      let with_keys : (n : ℕ)
          → (set_keys o).keys ≡ pos n
          → n ≤ 4096000
          → ((((set_keys o).keys ≡ (set_keys o).hot_keys) × (ltb_ℤ (pos 0) o.hot_keys ≡ true))
              ⊎ ((ltb_ℤ (pos 0) o.hot_keys ≡ false)
                  × ((m : ℕ) × (n ≡ m * c) × (b ≤ m) × (pos_part o.keys ≤ n))))
          → IsValid o (set_keys o) =
        λ n e few s. record {
          writers = c;
          operations = b;
          records = n;
          concurrency = rc ∙ hc;
          batch = rb ∙ hb;
          keys = e;
          some_writer = c1;
          few_writers = c2;
          some_operation = b1;
          few_operations = b2;
          room = not_less _ _ n b e (rb ∙ hb) room;
          few_records = few;
          shares = s;
        } in
      elim (Bool-cases (ltb_ℤ (pos 0) o.hot_keys)) [
        | inl shared ↦
            with_keys h (set_keys_shared o shared ∙ hh) (omega arith)
              (inl (set_keys_shared o shared ∙ sym rh, shared))
        | inr disjoint ↦
            let (enough, covered, _, few) = per_worker_lem b k c c1 c2 b2 k2 in
            with_keys (per_worker b k c * c) (set_keys_disjoint o c b k hc hb hk disjoint) few
              (inr (disjoint, (per_worker b k c, refl, enough, rw hk covered)))
      ]

module _ {Float : Type 0} (match_name : String → Bool) (is_negative : Float → Bool) where
  validate_settings-none :
      (o : Settings Float)
      → first_error (settings_tests match_name is_negative o) ≡ none
      → validate_settings match_name is_negative o ≡ check_batch (set_keys o)
  unfolding validate_settings
  validate_settings-none o h =
      ap (λ e. elim e [ some e ↦ refused e | none ↦ check_batch (set_keys o) ]) h

  validate_settings-some :
      (o : Settings Float) (e : SettingsError)
      → first_error (settings_tests match_name is_negative o) ≡ some e
      → validate_settings match_name is_negative o ≡ refused e
  unfolding validate_settings
  validate_settings-some o e h =
      ap (λ e. elim e [ some e ↦ refused e | none ↦ check_batch (set_keys o) ]) h

  settings_tests-none :
      (o : Settings Float)
      → first_error (settings_tests match_name is_negative o) ≡ none
      → (has_bad_limits match_name is_negative o ≡ false) × (ltb_ℤ (pos 1000000) o.hot_keys ≡ false)
  unfolding settings_tests
  settings_tests-none o h =
      let (_, (_, (_, (_, (limits, (_, (keys, _))))))) =
        first_error-All (settings_tests match_name is_negative o) h in
      (limits, ground (arith, keys))

  has_bad_limits-false :
      (o : Settings Float)
      → has_bad_limits match_name is_negative o ≡ false
      → (is_outside 1 4096 o.concurrency ≡ false)
        × (is_outside 1 1000 o.batch ≡ false)
        × (is_outside 1 1000000 o.keys ≡ false)
        × (ltb_ℤ o.hot_keys (pos 0) ≡ false)
  unfolding has_bad_limits
  has_bad_limits-false o h =
      let (a, (b, (c, (d, _)))) = any-All (limit_tests match_name is_negative o) h in (a, b, c, d)

  -- The settings that `validateSettings` lets pass: 1 to 4096 workers, 1 to 1000 operations in a call,
  -- and at least as many keys as operations, at most 4096000. Shared keys are the hot keys; others are
  -- shared out evenly, as many to each worker as a call has operations at least, and no fewer in all
  -- than were asked for.
  pub validate_settings-IsValid :
      (o r : Settings Float) → validate_settings match_name is_negative o ≡ valid r → IsValid o r
  validate_settings-IsValid o r h =
      elim (Option-cases (first_error (settings_tests match_name is_negative o))) [
        | inr (e, failed) ↦ cc (h, validate_settings-some o e failed)
        | inl passed ↦
            let (limits, hot) = settings_tests-none o passed in
            let (hc, hb, hk, hh) = has_bad_limits-false o limits in
            let (c, ec, c1, c2) = is_outside-false 1 4096 o.concurrency hc in
            let (b, eb, b1, b2) = is_outside-false 1 1000 o.batch hb in
            let (k, ek, _, k2) = is_outside-false 1 1000000 o.keys hk in
            let (n, en, _, n2) = is_outside-false 0 1000000 o.hot_keys (ground (arith, hh, hot)) in
            let (room, same) =
              check_batch-valid (set_keys o) r (sym (validate_settings-none o passed) ∙ h) in
            subst (IsValid o) same
              (set_keys-IsValid o c b k n ec eb ek en (c1, c2) (b1, b2) (k2, n2) room)
      ]
