-- ===== src/Events/Effect.antt =====
-- The life of the effect of frontend/src/hooks/useProjectSSE.ts: a mount starts a loop of `connect`
-- for its project, an unmount cancels it, and the flag `cancelledRef` is one for all loops.
pub mod Stale
use open_pm.Common.{
  ℕ, zero, suc, String, List, [], ◌∷◌, ◌++◌, Bool, true, false, Option, none, some, ltb,
  if◌then◌else◌,
}
use open_pm.Events.Connect.{after_throw}

-- Where a loop stands: at its request or its open stream, in a pause, or returned.
pub data Phase : Type 0 where
  requesting pausing : ℕ → Phase
  returned : Phase

pub record Loop : Type 0 where
  pub project : String
  pub phase : Phase

-- `cancelledRef.current`, and the loops in the order in which they were started.
pub record Hook : Type 0 where
  pub cancelled : Bool
  pub loops : List Loop

-- The effect runs, with a token and a project: `cancelledRef.current = false; connect();`.
unfoldable pub mount : String → Hook → Hook
mount project h = record {
  cancelled = false;
  loops = h.loops ++ record { project = project; phase = requesting 0 } ∷ [];
}

-- The cleanup: `cancelledRef.current = true`, and the request is aborted, which its loop sees later.
unfoldable pub unmount : Hook → Hook
unmount h = record h { cancelled = true }

-- React runs the cleanup of the old effect and then the new effect in one go.
unfoldable pub switch_project : String → Hook → Hook
switch_project project h = mount project (unmount h)

abbrev pub phase_of_retries : Option ℕ → Phase
phase_of_retries none = returned
phase_of_retries (some n) = pausing n

-- The request of a loop throws: it was aborted, or failed.
unfoldable pub throw : Bool → Loop → Loop
throw cancelled l = elim l.phase [
  | requesting n ↦ record {
    project = l.project;
    phase = phase_of_retries (after_throw cancelled false n).retries;
  }
  | pausing n ↦ l
  | returned ↦ l
]

-- The pause of a loop is over, and the test of its `while` is made.
unfoldable pub wake : Bool → Loop → Loop
wake cancelled l = elim l.phase [
  | requesting n ↦ l
  | pausing n ↦ record { project = l.project; phase = if cancelled then returned else requesting n }
  | returned ↦ l
]

abbrev pub at : ℕ → (Loop → Loop) → List Loop → List Loop
at i f [] = []
at zero f (l ∷ ls) = f l ∷ ls
at (suc i) f (l ∷ ls) = l ∷ at i f ls

-- The request of loop `i` throws; the pause of loop `i` ends.
unfoldable pub throw_at : ℕ → Hook → Hook
throw_at i h = record h { loops = at i (throw h.cancelled) h.loops }

unfoldable pub wake_at : ℕ → Hook → Hook
wake_at i h = record h { loops = at i (wake h.cancelled) h.loops }
