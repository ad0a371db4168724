-- ===== src/Clipper/Reload/Tracked.antt =====
-- The segmenters that run, against those of the reference.
use openring.Prelude.Yaml.{Value, Fields, get}
use openring.Prelude.Int.{ℤ}
use openring.Prelude.{
  ℕ, String, Bool, true, false, not, ◌≡◌, refl, ap, sym, subst, ◌∙◌, inl, inr, Option, some, List,
  [], ◌∷◌, ◌++◌, map, filter, any, beq, Dict, insert, All, All-map, if-false, and_then,
  and_then-some, some-injective, Bool-cases, Option-cases, arith, ◌==◌,
}
use mathlib.Core.List.{append_assoc, append-nil}
use openring.Clipper.Settings.{ClipperSettings, from_yaml, load_cameras}
use openring.Clipper.Reload.Base.{
  State, Reload, name_of, Built, start_one, build_segmenters, values, is_one_of, stop_segmenters,
  take_over, rebuild, on_config_change, run,
}

abbrev pub keys : Dict ℕ → List String
keys = map (λ entry. entry.0)

-- The names, where each camera has one.
abbrev pub names_of : List Fields → Option (List String)
names_of [] = some []
names_of (c ∷ cs) =
    and_then (name_of (get "name" c)) (λ n. and_then (names_of cs) (λ ns. some (n ∷ ns)))

abbrev pub is_among : String → List String → Bool
is_among n = any (λ m. m == n)

-- No name stands twice, nor is it one of those before.
abbrev pub IsFresh : List String → List String → Type 0
IsFresh before [] = Unit
IsFresh before (n ∷ ns) = (is_among n before ≡ false) × IsFresh (before ++ n ∷ []) ns

-- The cameras in use can be read, and each has a name of its own, for which its segmenter starts.
pub record IsNamed (r : Reload) : Type 0 where
  pub cameras : List Fields
  pub listed : load_cameras r.cfg ≡ some cameras
  pub names : List String
  pub named : names_of cameras ≡ some names
  pub fresh : IsFresh [] names
  pub start : All (λ n. r.starts n ≡ true) names

-- The segmenters that were started and on which `stop` was not called are those of the reference.
abbrev pub IsTracked : State → Type 0
IsTracked st = st.running ≡ values st.segmenters

insert-new :
    (n : String) (i : ℕ) (d : Dict ℕ)
    → is_among n (keys d) ≡ false
    → insert n i d ≡ d ++ (n, i) ∷ []
unfolding insert
insert-new n i [] h = refl
insert-new n i ((m, j) ∷ d) h = elim (Bool-cases (m == n)) [
  | inl same ↦ cc (rw same at h)
  | inr other ↦ rw other (ap (λ l. (m, j) ∷ l) (insert-new n i d (rw other at h)))
]

map-append :
    {A C : Type 0} (f : A → C) (l : List A) (x : A) → map f (l ++ x ∷ []) ≡ map f l ++ f x ∷ []
map-append f [] x = refl
map-append f (y ∷ l) x = ap (λ m. f y ∷ m) (map-append f l x)

-- The segmenters that are built are started and stored, under the names of the cameras.
build-Tracked :
    (starts : String → Bool) (cs : List Fields) (b : Built) (names : List String)
    → names_of cs ≡ some names
    → IsFresh (keys b.out) names
    → All (λ n. starts n ≡ true) names
    → b.failed ≡ false
    → b.running ≡ values b.out
    → let b' = build_segmenters starts cs b in
      (b'.failed ≡ false) × (b'.running ≡ values b'.out) × (keys b'.out ≡ keys b.out ++ names)
unfolding build_segmenters
build-Tracked starts [] b names named fresh start calm tracked = (
  calm,
  tracked,
  sym (append-nil (keys b.out)) ∙ ap (λ l. keys b.out ++ l) (some-injective named),
)
build-Tracked starts (c ∷ cs) b names named fresh start calm tracked =
    let (n, first, more) = and_then-some (name_of (get "name" c)) _ named in
    let (ns, rest, all) = and_then-some (names_of cs) _ more in
    let apart : IsFresh (keys b.out) (n ∷ ns) =
      subst (IsFresh (keys b.out)) (sym (some-injective all)) fresh in
    let started = subst (All (λ m. starts m ≡ true)) (sym (some-injective all)) start in
    let stored = insert-new n b.started b.out apart.0 in
    let out-keys : keys (insert n b.started b.out) ≡ keys b.out ++ n ∷ [] =
      ap keys stored ∙ map-append (λ entry. entry.0) b.out (n, b.started) in
    let running : b.running ++ b.started ∷ [] ≡ values (insert n b.started b.out) =
      ap (λ l. l ++ b.started ∷ []) tracked
      ∙ sym (ap values stored ∙ map-append (λ entry. entry.1) b.out (n, b.started)) in
    let (calm', tracked', keys') =
      build-Tracked starts cs (start_one n b) ns rest
        (subst (λ l. IsFresh l ns) (sym out-keys) apart.1) started.1 calm running in
    rw (first, started.0, build_segmenters)
      (
        calm',
        tracked',
        keys'
            ∙ (ap (λ l. l ++ ns) out-keys
                ∙ (append_assoc (keys b.out) (n ∷ []) ns
                    ∙ ap (λ l. keys b.out ++ l) (some-injective all))),
      )

beq_refl : (n : ℕ) → beq n n ≡ true
beq_refl n = ground arith

are_members : (l : List ℕ) → All (λ n. is_one_of l n ≡ true) l
are_members [] = tt
are_members (m ∷ l) = (
  rw (beq_refl m) refl,
  All-map (λ n. is_one_of l n ≡ true) (λ n. is_one_of (m ∷ l) n ≡ true) (λ n h. ground (arith, h)) l
      (are_members l),
)

filter-none : (p : ℕ → Bool) (l : List ℕ) → All (λ n. p n ≡ true) l → filter (λ n. not (p n)) l ≡ []
filter-none p [] h = refl
filter-none p (n ∷ l) h = rw h.0 (filter-none p l h.1)

stop-all : (d : Dict ℕ) → stop_segmenters d (values d) ≡ []
unfolding stop_segmenters
stop-all d = filter-none (is_one_of (values d)) (values d) (are_members (values d))

-- A reload of named cameras starts each of them once and stops all others.
rebuild-Tracked :
    (starts : String → Bool) (s : ClipperSettings) (cs : List Fields) (names : List String)
    (st : State)
    → names_of cs ≡ some names
    → IsFresh [] names
    → All (λ n. starts n ≡ true) names
    → IsTracked st
    → let st' = rebuild starts s (some cs) st in IsTracked st' × (keys st'.segmenters ≡ names)
unfolding rebuild take_over
rebuild-Tracked starts s cs names st named fresh start tracked =
    let none_left : stop_segmenters st.segmenters st.running ≡ [] =
      ap (stop_segmenters st.segmenters) tracked ∙ stop-all st.segmenters in
    let b : Built = record {
      out = [];
      running = stop_segmenters st.segmenters st.running;
      started = st.started;
      failed = false;
    } in
    let (calm, tracked', keys') =
      build-Tracked starts cs b names named fresh start refl none_left in
    let kept : (take_over st.segmenters s (build_segmenters starts cs b)).segmenters
        ≡ (build_segmenters starts cs b).out =
      if-false _ _ calm in
    (tracked' ∙ ap values (sym kept), ap keys kept ∙ keys')

module _ (repr : Value → String) (float_seconds float_confidence : Value → Option ℕ)
    (int : Value → Option ℤ) (second hundredth : ℕ) where
  on_config_change-IsTracked :
      (r : Reload) (st : State)
      → IsNamed r
      → IsTracked st
      → IsTracked (on_config_change repr float_seconds float_confidence int second hundredth r st)
  unfolding on_config_change
  on_config_change-IsTracked r st h tracked =
      elim (Option-cases
        (from_yaml repr float_seconds float_confidence int second hundredth r.cfg)) [
          | inl unread ↦ rw (unread, on_config_change) tracked
          | inr (s, read) ↦
              rw (read, on_config_change)
                (elim (Bool-cases s.enabled) [
                  | inl enabled ↦
                      rw (enabled, h.listed)
                        (rebuild-Tracked r.starts s h.cameras h.names st h.named h.fresh h.start
                          tracked).0
                  | inr disabled ↦
                      rw disabled (rebuild-Tracked r.starts s [] [] st refl tt tt tracked).0
                ])
        ]

  -- Over any reloads, whether the settings can be read or not, of files whose cameras in use have a
  -- name each, and all different, and where no segmenter of these cameras fails to start, the
  -- segmenters that were started and on which `stop` was not called are just those of the reference:
  -- none is stopped that is still used, and none is left that can no longer be stopped.
  pub run-IsTracked :
      (rs : List Reload) (st : State)
      → All IsNamed rs
      → IsTracked st
      → IsTracked (run repr float_seconds float_confidence int second hundredth rs st)
  unfolding run
  run-IsTracked [] st h tracked = tracked
  run-IsTracked (r ∷ rs) st h tracked =
      run-IsTracked rs _ h.1 (on_config_change-IsTracked r st h.0 tracked)
