-- ===== src/Firmware/Post/Base.antt =====
-- `post_to_host`: its settings, and the loop over the attempts.
use openring.Prelude.{
  ℕ, zero, suc, ◌+◌, ◌*◌, min, String, Bool, ◌&&◌, ◌||◌, Option, none, some, List, [], ◌∷◌, ltb,
  leb, if◌then◌else◌, Dict, lookup, ◌==◌,
}

-- What one request gives: a `RequestException`, or a response with its status code.
pub data Answer : Type 0 where
  failed : Answer
  responded : (status_code : ℕ) → Answer

-- resp.ok
abbrev pub is_ok : ℕ → Bool
is_ok status = ltb status 400

abbrev pub is_client_error : ℕ → Bool
is_client_error status = leb 400 status && ltb status 500

-- The status of an answer that ends the loop: a success, or an error that no retry mends.
unfoldable pub final_status : Answer → Option ℕ
final_status failed = none
final_status (responded status) =
    if is_ok status then some status else if is_client_error status then some status else none

-- The status of the response that is returned, the requests made, and the sleeps between them.
pub record Posted : Type 0 where
  pub response : Option ℕ
  pub requests : ℕ
  pub sleeps : List ℕ

-- The body of the loop returned.
abbrev pub returned : ℕ → Posted
returned status = record { response = some status; requests = 1; sleeps = [] }

abbrev pub gave_up : Posted
gave_up = record { response = none; requests = 1; sleeps = [] }

-- The rest of the loop after a sleep.
abbrev pub slept : ℕ → Posted → Posted
slept delay p = record {
  response = p.response;
  requests = p.requests + 1;
  sleeps = delay ∷ p.sleeps;
}

-- The attempts from `attempt` on, of which `left` and one more remain.
unfoldable pub attempts : (ℕ → Answer) → ℕ → ℕ → ℕ → Posted
attempts answer zero attempt delay = elim (final_status (answer attempt)) [
  | none ↦ gave_up
  | some status ↦ returned status
]
attempts answer (suc left) attempt delay =
    let later = slept delay (attempts answer left (attempt + 1) (min (delay * 2) 60)) in
    elim (final_status (answer attempt)) [ none ↦ later | some status ↦ returned status ]

-- settings.get(key, "")
abbrev pub setting : Dict String → String → String
setting settings key = elim (lookup key settings) [ none ↦ "" | some value ↦ value ]

abbrev never_sent : Posted
never_sent = record { response = none; requests = 0; sleeps = [] }

module _ (rstrip_slash : String → String) where
  -- `max_retries` is one more than `left`; the loop starts with a delay of one second.
  unfoldable pub post_to_host : Dict String → ℕ → (ℕ → Answer) → Posted
  unfolding attempts
  post_to_host settings left answer =
      if rstrip_slash (setting settings "HOST_BASE_URL") == ""
        || setting settings "DEVICE_TOKEN" == ""
      then never_sent
      else attempts answer left 1 1
