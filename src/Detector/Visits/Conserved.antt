-- ===== src/Detector/Visits/Conserved.antt =====
-- Every detection is counted in one session or one active visit.
use openring.Prelude.Int.{ℤ}
use openring.Prelude.{
  ℕ, ◌+◌, String, Bool, true, ◌≡◌, refl, ap, Option, none, some, List, [], ◌∷◌, ◌++◌, map, filter,
  arith, Dict, lookup, insert, eq_iff,
}
use openring.Detector.Visits.Base.{
  ActiveVisit, Session, Tracker, visit_key, new_visit, close, persist, extend_or_start, pop,
  pop_all, record_detection, flush_expired, flush_all, expired_keys, Call, detection, flushing,
  stopping, call, run,
}

abbrev pub stored_count : List Session → ℕ
stored_count [] = 0
stored_count (s ∷ l) = s.detection_count + stored_count l

abbrev pub active_count : Dict ActiveVisit → ℕ
active_count [] = 0
active_count ((k, v) ∷ m) = v.detection_count + active_count m

abbrev visit_count : List ActiveVisit → ℕ
visit_count [] = 0
visit_count (v ∷ l) = v.detection_count + visit_count l

-- The detections that the tracker accounts for.
abbrev pub total : Tracker → ℕ
total t = stored_count t.visit_sessions + active_count t.active

stored_count-append : (k l : List Session) → stored_count (k ++ l) ≡ stored_count k + stored_count l
stored_count-append [] l = omega arith
stored_count-append (s ∷ k) l = omega (arith, stored_count-append k l)

visit_count-append : (k l : List ActiveVisit) → visit_count (k ++ l) ≡ visit_count k + visit_count l
visit_count-append [] l = omega arith
visit_count-append (s ∷ k) l = omega (arith, visit_count-append k l)

abbrev count_of : Option ActiveVisit → ℕ
count_of none = 0
count_of (some v) = v.detection_count

active_count-insert :
    (key : String) (v : ActiveVisit) (m : Dict ActiveVisit)
    → active_count (insert key v m) + count_of (lookup key m) ≡ active_count m + v.detection_count
unfolding insert lookup
active_count-insert key v [] = omega arith
active_count-insert key v ((k, w) ∷ m) = ground (arith, active_count-insert key v m)

pop_count :
    (key : String) (m : Dict ActiveVisit)
    → visit_count (pop key m).0 + active_count (pop key m).1 ≡ active_count m
unfolding pop
pop_count key [] = omega arith
pop_count key ((k, w) ∷ m) = ground (arith, pop_count key m)

pop_all_count :
    (keys : List String) (m : Dict ActiveVisit)
    → visit_count (pop_all keys m).0 + active_count (pop_all keys m).1 ≡ active_count m
unfolding pop_all
pop_all_count [] m = omega arith
pop_all_count (key ∷ keys) m = omega (
  arith,
  pop_count key m,
  pop_all_count keys (pop key m).1,
  visit_count-append (pop key m).0 (pop_all keys (pop key m).1).0,
)

extend_count :
    (timeout : ℕ) (camera class : String) (timestamp : ℕ) (o : Option ActiveVisit)
    → let r = extend_or_start timeout camera class timestamp o in
      r.0.detection_count + visit_count r.1 ≡ count_of o + 1
unfolding extend_or_start new_visit
extend_count timeout camera class timestamp none = omega arith
extend_count timeout camera class timestamp (some v) = ground arith

abbrev pub detections : List Call → ℕ
detections [] = 0
detections (detection _ _ _ ∷ cs) = detections cs + 1
detections (flushing _ ∷ cs) = detections cs
detections (stopping ∷ cs) = detections cs

module _ (round1 : ℤ → ℤ) (stored : Session → Bool) where
  module _ (all_stored : (s : Session) → stored s ≡ true) where
    close_count :
        (l : List ActiveVisit) → stored_count (filter stored (map (close round1) l)) ≡ visit_count l
    unfolding close
    close_count [] = refl
    close_count (v ∷ l) = ground (arith, all_stored (close round1 v), close_count l)

    persist_count :
        (l : List ActiveVisit) (t : Tracker)
        → total (persist stored (map (close round1) l) t) ≡ total t + visit_count l
    unfolding persist
    persist_count l t = omega (
      arith,
      close_count l,
      stored_count-append t.visit_sessions (filter stored (map (close round1) l)),
    )

    record_count :
        (t : Tracker) (camera class : String) (timestamp : ℕ)
        → total (record_detection round1 stored t camera class timestamp) ≡ total t + 1
    unfolding record_detection
    record_count t camera class timestamp =
        let key = visit_key camera class in
        let old = lookup key t.active in
        let r = extend_or_start t.timeout camera class timestamp old in
        omega (
          arith,
          persist_count r.1 (record t { active = insert key r.0 t.active }),
          active_count-insert key r.0 t.active,
          extend_count t.timeout camera class timestamp old,
        )

    popped_count :
        (t : Tracker) (keys : List String)
        → total (
            persist stored
              (map (close round1) (pop_all keys t.active).0)
              (record t { active = (pop_all keys t.active).1 }))
          ≡ total t
    popped_count t keys = omega (
      arith,
      persist_count (pop_all keys t.active).0 (record t { active = (pop_all keys t.active).1 }),
      pop_all_count keys t.active,
    )

    call_count :
        (t : Tracker) (c : Call) → total (call round1 stored t c) ≡ total t + detections (c ∷ [])
    unfolding call flush_expired flush_all
    call_count t (detection camera class timestamp) =
        omega (arith, record_count t camera class timestamp)
    call_count t (flushing now) =
        omega (arith, popped_count t (expired_keys t.timeout now t.active))
    call_count t stopping = omega (arith, popped_count t (map (λ e. e.0) t.active))

    detections-cons :
        (c : Call) (cs : List Call) → detections (c ∷ cs) ≡ detections (c ∷ []) + detections cs
    detections-cons (detection _ _ _) cs = omega arith
    detections-cons (flushing _) cs = omega arith
    detections-cons stopping cs = omega arith

    -- Where every INSERT succeeds, over any run of detections and flushes the detections that the
    -- stored sessions and the active visits count grow by just the detections recorded.
    pub total-run :
        (t : Tracker) (cs : List Call) → total (run round1 stored t cs) ≡ total t + detections cs
    unfolding run
    total-run t [] = omega arith
    total-run t (c ∷ cs) =
        omega (arith, call_count t c, total-run (call round1 stored t c) cs, detections-cons c cs)

all_keys_gone : (m : Dict ActiveVisit) → (pop_all (map (λ e. e.0) m) m).1 ≡ []
unfolding pop_all pop
all_keys_gone [] = refl
all_keys_gone ((k, v) ∷ m) = ground (arith, all_keys_gone m, eq_iff k k)

-- Where every INSERT succeeds, the shutdown flush leaves no active visit, and the stored sessions
-- count all the detections that the tracker accounted for.
pub flush_all-total :
    (round1 : ℤ → ℤ) (stored : Session → Bool) (all_stored : (s : Session) → stored s ≡ true)
    (t : Tracker)
    → ((flush_all round1 stored t).0.active ≡ [])
      × (stored_count (flush_all round1 stored t).0.visit_sessions ≡ total t)
unfolding flush_all persist
flush_all-total round1 stored all_stored t =
    let gone = all_keys_gone t.active in
    (
      gone,
      omega (
        arith,
        popped_count round1 stored all_stored t (map (λ e. e.0) t.active),
        ap active_count gone,
      ),
    )
