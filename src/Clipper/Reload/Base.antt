-- ===== src/Clipper/Reload/Base.antt =====
-- `_build_segmenters`, `_stop_segmenters` and `_on_config_change`.
use openring.Prelude.Yaml.{Value, null, flag, number, text, items, mapping, Fields, get}
use openring.Prelude.Int.{ℤ}
use openring.Prelude.{
  ℕ, ◌+◌, String, Bool, true, false, not, Option, none, some, List, [], ◌∷◌, ◌++◌, map, filter, any,
  beq, Dict, insert, if◌then◌else◌,
}
use openring.Clipper.Settings.{ClipperSettings, from_yaml, load_cameras}

-- The values of the two references; the segmenters are numbered as they are started, and `running` has
-- those of them on which `stop` has not been called.
pub record State : Type 0 where
  pub settings : ClipperSettings
  pub segmenters : Dict ℕ
  pub running : List ℕ
  pub started : ℕ

-- c["name"], which a path is made of: KeyError where it is missing, and TypeError where it is no text.
unfoldable pub name_of : Option Value → Option String
name_of (some (text s)) = some s
name_of none = none
name_of (some null) = none
name_of (some (flag b)) = none
name_of (some (number n)) = none
name_of (some (items l)) = none
name_of (some (mapping m)) = none

-- A reload: the file as it is read, and for which names `seg.start()` returns. It raises where the
-- directory or the thread cannot be made.
pub record Reload : Type 0 where
  pub cfg : Fields
  pub starts : String → Bool

-- What `_build_segmenters` has made, and whether it raised.
pub record Built : Type 0 where
  pub out : Dict ℕ
  pub running : List ℕ
  pub started : ℕ
  pub failed : Bool

-- One turn of the loop: a segmenter is started, and stored under its name.
abbrev pub start_one : String → Built → Built
start_one name b = record b {
  out = insert name b.started b.out;
  running = b.running ++ b.started ∷ [];
  started = b.started + 1;
}

unfoldable pub build_segmenters : (String → Bool) → List Fields → Built → Built
unfolding name_of
build_segmenters starts [] b = b
build_segmenters starts (c ∷ cs) b = elim (name_of (get "name" c)) [
  | none ↦ record b { failed = true }
  | some name ↦ elim (starts name) [
    | false ↦ record b { failed = true }
    | true ↦ build_segmenters starts cs (start_one name b)
  ]
]

abbrev pub values : Dict ℕ → List ℕ
values = map (λ entry. entry.1)

abbrev pub is_one_of : List ℕ → ℕ → Bool
is_one_of l n = any (λ m. beq m n) l

unfoldable pub stop_segmenters : Dict ℕ → List ℕ → List ℕ
stop_segmenters segmenters = filter (λ n. not (is_one_of (values segmenters) n))

-- The end of `_on_config_change`, for the segmenters that were built: where that raised, the reference
-- keeps the old ones.
unfoldable pub take_over : Dict ℕ → ClipperSettings → Built → State
take_over old s b = record {
  settings = s;
  segmenters = if b.failed then old else b.out;
  running = b.running;
  started = b.started;
}

-- `new_cameras`, where the list can be read.
abbrev pub new_cameras : ClipperSettings → Fields → Option (List Fields)
new_cameras s cfg = if s.enabled then load_cameras cfg else some []

-- After the settings are read.
unfoldable pub rebuild : (String → Bool) → ClipperSettings → Option (List Fields) → State → State
unfolding build_segmenters stop_segmenters take_over
rebuild starts s cameras st =
    let left = stop_segmenters st.segmenters st.running in
    elim cameras [
      | none ↦ record {
        settings = s;
        segmenters = st.segmenters;
        running = left;
        started = st.started;
      }
      | some cs ↦ take_over st.segmenters s (
          build_segmenters starts cs
            record { out = []; running = left; started = st.started; failed = false })
    ]

module _ (repr : Value → String) (float_seconds float_confidence : Value → Option ℕ)
    (int : Value → Option ℤ) (second hundredth : ℕ) where
  -- An exception is caught by the thread that watches the file.
  unfoldable pub on_config_change : Reload → State → State
  unfolding rebuild
  on_config_change r st =
      elim (from_yaml repr float_seconds float_confidence int second hundredth r.cfg) [
        | none ↦ st
        | some s ↦ rebuild r.starts s (new_cameras s r.cfg) st
      ]

  unfoldable pub run : List Reload → State → State
  unfolding on_config_change
  run [] st = st
  run (r ∷ rs) st = run rs (on_config_change r st)
