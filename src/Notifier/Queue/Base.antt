-- ===== src/Notifier/Queue/Base.antt =====
-- Entries, the persisted file, and the methods of `NotificationQueue`.
use openring.Prelude.{
  ℕ, ◌+◌, ◌-◌, min, String, Bool, true, false, ◌&&◌, Option, none, some, List, [], ◌∷◌, ◌++◌, map,
  leb, beq, length, get_elem?, filter, is_empty, if◌then◌else◌, Dict, lookup, insert, ◌==◌,
}

abbrev pub backoff_steps : List ℕ
backoff_steps = 30 ∷ 60 ∷ 120 ∷ 240 ∷ 480 ∷ 600 ∷ []

abbrev pub max_age_seconds : ℕ
max_age_seconds = 86400

abbrev pub max_queue_size : ℕ
max_queue_size = 500

pub record QueueEntry (E : Type 0) : Type 0 where
  pub event : E
  pub notifier_type : String
  pub attempt : ℕ
  pub next_retry : ℕ
  pub first_failed : ℕ

-- A channel object: its `name` property, if it has one, and the name of its class.
pub record Notifier : Type 0 where
  pub name : Option String
  pub class_name : String

-- getattr(notifier, "name", None) or type(notifier).__name__
unfoldable pub channel_name : Notifier → String
channel_name n = elim n.name [ none ↦ n.class_name | some s ↦ if s == "" then n.class_name else s ]

-- The entries in memory, and the content of the file if there is one that can be parsed.
pub record Queue (E : Type 0) : Type 0 where
  pub entries : List (QueueEntry E)
  pub file : Option (List (QueueEntry E))

-- _BACKOFF_STEPS[min(attempt, len(_BACKOFF_STEPS) - 1)]
abbrev at_or_zero : Option ℕ → ℕ
at_or_zero none = 0
at_or_zero (some d) = d

unfoldable pub backoff : ℕ → ℕ
backoff attempt = at_or_zero (get_elem? backoff_steps (min attempt (length backoff_steps - 1)))

module _ {E : Type 0} where
  -- `_save`; `written` is false where the write raised.
  unfoldable pub save : Bool → Queue E → Queue E
  save written q = if written then record q { file = some q.entries } else q

  -- `__init__` and `_load`, from the file that an earlier process left.
  unfoldable pub load : ℕ → Option (List (QueueEntry E)) → Queue E
  load now none = record { entries = []; file = none }
  load now (some raw) = record {
    entries = filter (λ e. leb now (e.first_failed + max_age_seconds)) raw;
    file = some raw;
  }

  -- self._entries.pop(0) where the queue is full
  unfoldable pub make_room : List (QueueEntry E) → List (QueueEntry E)
  make_room [] = []
  make_room (e ∷ es) = if leb max_queue_size (length (e ∷ es)) then es else e ∷ es

  unfoldable pub new_entry : E → Notifier → ℕ → QueueEntry E
  new_entry event notifier now = record {
    event = event;
    notifier_type = channel_name notifier;
    attempt = 0;
    next_retry = now + backoff 0;
    first_failed = now;
  }

  unfoldable pub enqueue : Bool → Queue E → E → Notifier → ℕ → Queue E
  unfolding save make_room new_entry
  enqueue written q event notifier now =
      save written (record q { entries = make_room q.entries ++ new_entry event notifier now ∷ [] })

-- notifiers_by_type.setdefault(k, v)
unfoldable pub set_default : String → Notifier → Dict Notifier → Dict Notifier
set_default k n d = elim (lookup k d) [ none ↦ insert k n d | some m ↦ d ]

unfoldable pub index_notifiers : Dict Notifier → List Notifier → Dict Notifier
unfolding set_default channel_name
index_notifiers d [] = d
index_notifiers d (n ∷ ns) =
    index_notifiers (set_default n.class_name n (insert (channel_name n) n d)) ns

-- `send` tells whether the i-th send of the pass returns, rather than raises.
module _ {E : Type 0} (send : ℕ → Notifier → E → Bool) where
  -- The `except` branch: the entry, and whether it joins `to_remove`.
  unfoldable pub retry_later : ℕ → QueueEntry E → QueueEntry E × Bool
  retry_later now e =
      if leb (e.first_failed + max_age_seconds) now
      then (record e { attempt = e.attempt + 1 }, true)
      else (record e { attempt = e.attempt + 1; next_retry = now + backoff (e.attempt + 1) }, false)

  unfoldable pub try_entry : ℕ → ℕ → Notifier → QueueEntry E → QueueEntry E × Bool
  unfolding retry_later
  try_entry now i target e = if send i target e.event then (e, true) else retry_later now e

  -- The loop over the due entries, within the list that they stand in: each entry as the loop
  -- leaves the object, and whether it joins `to_remove`.
  unfoldable pub visit : ℕ → Dict Notifier → ℕ → List (QueueEntry E) → List (QueueEntry E × Bool)
  visit now targets i [] = []
  visit now targets i (e ∷ es) = elim (leb e.next_retry now) [
    | true ↦ elim (lookup e.notifier_type targets) [
      | none ↦ (e, false) ∷ visit now targets i es
      | some target ↦ try_entry now i target e ∷ visit now targets (i + 1) es
    ]
    | false ↦ (e, false) ∷ visit now targets i es
  ]

-- `same` is `==` on events; entries are compared field by field, as dataclasses are.
module _ {E : Type 0} (same : E → E → Bool) where
  unfoldable pub same_entry : QueueEntry E → QueueEntry E → Bool
  same_entry a b =
      same a.event b.event
      && (a.notifier_type == b.notifier_type
          && (beq a.attempt b.attempt
              && (beq a.next_retry b.next_retry && beq a.first_failed b.first_failed)))

  -- self._entries.remove(entry), a ValueError ignored
  unfoldable pub remove : QueueEntry E → List (QueueEntry E) → List (QueueEntry E)
  remove a [] = []
  remove a (e ∷ es) = if same_entry e a then es else e ∷ remove a es

  unfoldable pub remove_all : List (QueueEntry E) → List (QueueEntry E) → List (QueueEntry E)
  remove_all [] es = es
  remove_all (a ∷ rs) es = remove_all rs (remove a es)

unfoldable pub to_remove : {E : Type 0} → List (QueueEntry E × Bool) → List (QueueEntry E)
to_remove [] = []
to_remove ((e, done) ∷ r) = let rest = to_remove r in if done then e ∷ rest else rest

abbrev pub visited_entries : {E : Type 0} → List (QueueEntry E × Bool) → List (QueueEntry E)
visited_entries = map (λ v. v.0)

unfoldable pub process_due :
    {E : Type 0} (send : ℕ → Notifier → E → Bool) (same : E → E → Bool)
    → Bool
    → Queue E
    → List Notifier
    → ℕ
    → Queue E
process_due send same written q notifiers now =
    if is_empty (filter (λ e. leb e.next_retry now) q.entries)
    then q
    else let visited = visit send now (index_notifiers [] notifiers) 0 q.entries in
      save written
        (record q { entries = remove_all same (to_remove visited) (visited_entries visited) })
