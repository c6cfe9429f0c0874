-- ===== src/Events/Connect.antt =====
-- The loop of `connect` in frontend/src/hooks/useProjectSSE.ts. A round is one pass through the
-- `while`: the environment gives how the request and the body end, and when the hook is cancelled.
pub mod Retries
use open_pm.Common.{
  ℕ, suc, ◌+◌, ◌*◌, ◌^◌, String, Option, none, some, List, [], ◌∷◌, ◌++◌, Bool, true, false, not,
  ◌&&◌, ltb, leb, if◌then◌else◌, min,
}
use open_pm.Pipeline.Types.{ConnectionState, connecting, open_stream, disconnected}

abbrev pub max_retries : ℕ
max_retries = 6

abbrev pub base_delay_ms : ℕ
base_delay_ms = 1000

abbrev pub max_delay_ms : ℕ
max_delay_ms = 30000

-- How a request ends: 401 or 403; another failure before the stream is open; or an open stream,
-- which ends by itself or by an exception.
pub data Outcome : Type 0 where
  unauthorized refused ended broken : Outcome

pub record Round : Type 0 where
  pub outcome : Outcome
  -- `cancelledRef.current` when the request or the body has ended, and after the pause.
  pub cancelled : Bool
  pub cancelled_later : Bool

-- What the loop does to the outside.
pub data Signal : Type 0 where
  set_state : ConnectionState → Signal
  pause : ℕ → Signal

-- What follows the `try`: the new `retries`, or `none` where the loop returns.
pub record Next : Type 0 where
  pub signals : List Signal
  pub retries : Option ℕ

unfoldable pub after_try : Bool → Bool → ℕ → Next
after_try cancelled cancelled_later retries =
    if cancelled
    then record { signals = []; retries = none }
    else if ltb max_retries (suc retries)
    then record { signals = set_state disconnected ∷ []; retries = none }
    else record {
      signals =
          set_state connecting ∷ pause (min (base_delay_ms * 2 ^ suc retries) max_delay_ms) ∷ [];
      retries = if cancelled_later then none else some (suc retries);
    }

-- The `catch`: a cancelled loop reports that it is disconnected.
unfoldable pub after_throw : Bool → Bool → ℕ → Next
after_throw cancelled cancelled_later retries =
    if cancelled
    then record { signals = set_state disconnected ∷ []; retries = none }
    else after_try cancelled cancelled_later retries

abbrev pub prefix : List Signal → Next → Next
prefix signals n = record n { signals = signals ++ n.signals }

unfoldable pub round : Round → ℕ → Next
round r retries = elim r.outcome [
  | unauthorized ↦ record {
    signals = set_state connecting ∷ set_state disconnected ∷ [];
    retries = none;
  }
  | refused ↦ prefix (set_state connecting ∷ []) (after_throw r.cancelled r.cancelled_later retries)
  | ended ↦
      prefix (set_state connecting ∷ set_state open_stream ∷ [])
        (after_try r.cancelled r.cancelled_later 0)
  | broken ↦
      prefix (set_state connecting ∷ set_state open_stream ∷ [])
        (after_throw r.cancelled r.cancelled_later 0)
]

-- The loop over the rounds that the environment gives, from a number of retries.
unfoldable pub connect : List Round → Option ℕ → Next
connect [] retries = record { signals = []; retries = retries }
connect (r ∷ rs) none = record { signals = []; retries = none }
connect (r ∷ rs) (some retries) = let n = round r retries in prefix n.signals (connect rs n.retries)
