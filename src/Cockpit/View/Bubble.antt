-- ===== src/Cockpit/View/Bubble.antt =====
-- The messages on the page from a sent message until the refetches of an answer.
use open_pm.Common.{
  Text, String, is_some, List, [], ◌∷◌, ◌++◌, ◌≡◌, Bool, not, ◌&&◌, ◌||◌, is_empty, if◌then◌else◌,
  length, drop, map, get_elem?, All,
}
use open_pm.Chat.Stream.{Completion, Output, completed, toast, Stream}
use open_pm.Chat.Session.{Step, step}
use open_pm.Cockpit.View.{assistant, ChatMessage, Cockpit, Sent, Stamp, has_calls, hook_step}

-- The callbacks that the hook calls in a run.
abbrev pub outputs : List (Stamp × Step) → Stream → List Output
outputs [] s = []
outputs ((stamp, e) ∷ es) s = drop (length s.log) (step e s).log ++ outputs es (step e s)

-- A callback brings an answer: it succeeded, with a text or with calls of tools.
abbrev pub is_answer : Completion → Bool
is_answer c = c.success && (not (is_empty c.message) || has_calls c.invocations)

-- The texts of the answers to the sent messages.
abbrev pub answer_texts : List Sent → List Output → List Text
answer_texts sent [] = []
answer_texts sent (toast t ∷ later) = answer_texts sent later
answer_texts sent (completed c ∷ later) =
    (if is_some (get_elem? sent c.send) && is_answer c then c.message ∷ [] else [])
    ++ answer_texts sent later

-- The messages of `j` are those of `k`, then answers with the given texts.
abbrev pub Extends : List Text → Cockpit → Cockpit → Type 0
Extends texts k j =
    (more : List ChatMessage) × (j.optimistic_messages ≡ k.optimistic_messages ++ more)
    × (map (λ m. m.content) more ≡ texts)
    × All (λ m. m.role ≡ assistant) more

module _ (project : String) where
  -- A run of the hook, with a stamp for each step.
  abbrev pub hook_run : List (Stamp × Step) → Cockpit → Cockpit
  hook_run [] k = k
  hook_run ((stamp, e) ∷ es) k = hook_run es (hook_step project stamp e k)
