-- ===== src/Detector/Scheduler/Fired.antt =====
-- Each configured time is fired just once.
use openring.Prelude.{
  ℕ, zero, suc, ◌+◌, ◌-◌, ◌≤◌, ◌≡◌, refl, ap, ◌∙◌, inl, inr, Bool, true, false, not, ◌&&◌,
  Bool-cases, Option, none, some, List, [], ◌∷◌, ◌++◌, ltb, leb, beq, if◌then◌else◌, arith,
}
use openring.Prelude.{le→leb, lt→ltb}
use mathlib.Core.Path.{ap₂}
use openring.Detector.Scheduler.Base.{
  date, Transition, candidate, of_date, of_dates, insert_by_time, sort_by_time, transitions_between,
  Scheduler, Tick, tick,
}

abbrev pub is_same : Bool → Bool → Bool
is_same true b = b
is_same false b = not b

-- Whether the getter has given the time `t`.
abbrev pub is_at : Option ℕ → ℕ → Bool
is_at none t = false
is_at (some u) t = beq u t

-- How often a list holds the transition at `t` to `armed`.
abbrev pub count_of : ℕ → Bool → List Transition → ℕ
count_of t armed [] = 0
count_of t armed ((u, b) ∷ l) = (if beq u t && is_same b armed then 1 else 0) + count_of t armed l

-- Whether `t` lies in the half-open interval.
abbrev pub is_in : ℕ → ℕ → ℕ → Bool
is_in t start end = ltb start t && leb t end

abbrev pub one_if : Bool → ℕ
one_if b = if b then 1 else 0

module _ (t : ℕ) (armed : Bool) where
  pub count-append :
      (k l : List Transition) → count_of t armed (k ++ l) ≡ count_of t armed k + count_of t armed l
  count-append [] l = omega arith
  count-append ((u, b) ∷ k) l = omega (arith, count-append k l)

  count-insert :
      (u : ℕ) (b : Bool) (l : List Transition)
      → count_of t armed (insert_by_time (u, b) l)
        ≡ one_if (beq u t && is_same b armed) + count_of t armed l
  unfolding insert_by_time
  count-insert u b [] = refl
  count-insert u b ((v, c) ∷ l) = elim (Bool-cases (leb u v)) [
    | inl before ↦ rw before refl
    | inr after ↦ rw after (omega (arith, count-insert u b l))
  ]

  count-sort : (l : List Transition) → count_of t armed (sort_by_time l) ≡ count_of t armed l
  unfolding sort_by_time
  count-sort [] = refl
  count-sort ((u, b) ∷ l) = omega (arith, count-insert u b (sort_by_time l), count-sort l)

  count-candidate :
      (start end : ℕ) (b : Bool) (o : Option ℕ)
      → count_of t armed (candidate start end b o)
        ≡ one_if (is_same b armed && (is_at o t && is_in t start end))
  unfolding candidate
  count-candidate start end b none = ground arith
  count-candidate start end b (some u) = ground arith

one_if_and_false : (b : Bool) → one_if (b && false) ≡ 0
one_if_and_false true = refl
one_if_and_false false = refl

-- Whether a date is among the `n` dates from `d`.
abbrev is_within : ℕ → ℕ → ℕ → Bool
is_within d n k = leb d k && ltb k (d + n)

is_within-suc :
    (d n k : ℕ) (s i : Bool)
    → one_if ((beq d k && s) && i) + one_if (is_within (d + 1) n k && (s && i))
      ≡ one_if (is_within d (suc n) k && (s && i))
is_within-suc d n k true true = ground arith
is_within-suc d n k true false = ground arith
is_within-suc d n k false i = ground arith

-- Each time that is given for a date lies on that date in UTC.
abbrev pub OnDate : (ℕ → Option ℕ) → Type 0
OnDate get = (d t : ℕ) → get d ≡ some t → date t ≡ d

is_at-true : (o : Option ℕ) (t : ℕ) → is_at o t ≡ true → o ≡ some t
is_at-true none t h = cc
is_at-true (some u) t h = ground arith

is_at-OnDate :
    (get : ℕ → Option ℕ) (t d : ℕ)
    → OnDate get
    → is_at (get d) t ≡ (beq d (date t) && is_at (get (date t)) t)
is_at-OnDate get t d on = elim (Bool-cases (beq d (date t))) [
  | inl same ↦ let e : d ≡ date t = ground arith in rw same (ap (λ x. is_at (get x) t) e)
  | inr other ↦ elim (Bool-cases (is_at (get d) t)) [
    | inl at ↦ let e : date t ≡ d = on d t (is_at-true (get d) t at) in absurd (ground arith)
    | inr away ↦ rw other away
  ]
]

module _ (get_arm_time get_disarm_time : ℕ → Option ℕ) where
  abbrev pub getter : Bool → ℕ → Option ℕ
  getter true d = get_arm_time d
  getter false d = get_disarm_time d

  count-of_date :
      (t : ℕ) (armed : Bool) (start end d : ℕ)
      → count_of t armed (of_date get_arm_time get_disarm_time start end d)
        ≡ one_if (is_at (getter armed d) t && is_in t start end)
  unfolding of_date
  count-of_date t true start end d = omega (
    arith,
    count-append t true (candidate start end true (get_arm_time d))
        (candidate start end false (get_disarm_time d)),
    count-candidate t true start end true (get_arm_time d),
    count-candidate t true start end false (get_disarm_time d),
  )
  count-of_date t false start end d = omega (
    arith,
    count-append t false (candidate start end true (get_arm_time d))
        (candidate start end false (get_disarm_time d)),
    count-candidate t false start end true (get_arm_time d),
    count-candidate t false start end false (get_disarm_time d),
  )

  module _ (t : ℕ) (armed : Bool) (on : OnDate (getter armed)) where
    count-of_dates :
        (start end n d : ℕ)
        → count_of t armed (of_dates get_arm_time get_disarm_time start end n d)
          ≡ one_if
              (is_within d n (date t) && (is_at (getter armed (date t)) t && is_in t start end))
    unfolding of_dates
    count-of_dates start end zero d = ground arith
    count-of_dates start end (suc n) d =
        let here = of_date get_arm_time get_disarm_time start end d in
        let rest = of_dates get_arm_time get_disarm_time start end n (d + 1) in
        let at = is_at (getter armed (date t)) t in
        let inside = is_in t start end in
        let counted_here : count_of t armed here ≡ one_if ((beq d (date t) && at) && inside) =
          count-of_date t armed start end d
          ∙ ap (λ b. one_if (b && inside)) (is_at-OnDate (getter armed) t d on) in
        count-append t armed here rest
        ∙ (ap₂ ◌+◌ counted_here (count-of_dates start end n (d + 1))
            ∙ is_within-suc d n (date t) at inside)

    within_dates :
        (start end : ℕ)
        → is_in t start end ≡ true
        → is_within (date start) (date end + 1 - date start) (date t) ≡ true
    within_dates start end inside =
        let after : suc start ≤ t = ground arith in
        let before : t ≤ end = ground arith in
        rw (le→leb (date start) (date t) (omega arith))
          (lt→ltb (date t) (date start + (date end + 1 - date start)) (omega arith))

    in_dates :
        (start end : ℕ) (at : Bool)
        → one_if (
            is_within (date start) (date end + 1 - date start) (date t)
            && (at && is_in t start end))
          ≡ one_if (at && is_in t start end)
    in_dates start end true = elim (Bool-cases (is_in t start end)) [
      | inl inside ↦ rw (within_dates start end inside)
      | inr outside ↦
          rw outside
            (one_if_and_false (is_within (date start) (date end + 1 - date start) (date t)))
    ]
    in_dates start end false =
        one_if_and_false (is_within (date start) (date end + 1 - date start) (date t))

    -- The transition at `t` is found once where it is configured and lies in the interval.
    count-transitions_between :
        (start end : ℕ)
        → count_of t armed (transitions_between get_arm_time get_disarm_time start end)
          ≡ one_if (is_at (getter armed (date t)) t && is_in t start end)
    unfolding transitions_between
    count-transitions_between start end =
        let dates = date end + 1 - date start in
        count-sort t armed (of_dates get_arm_time get_disarm_time start end dates (date start))
        ∙ (count-of_dates start end dates (date start)
            ∙ in_dates start end (is_at (getter armed (date t)) t))

    pub count-tick :
        (s : Scheduler) (c : Tick)
        → s.enabled ≡ true
        → count_of t armed (tick get_arm_time get_disarm_time s c).0
          ≡ one_if (is_at (getter armed (date t)) t && is_in t s.last_tick c.now)
    unfolding tick
    count-tick s c enabled = rw enabled (count-transitions_between s.last_tick c.now)
